-- ===== src/Base/Io.antt =====
-- Code that may fail and that acts on the world outside the gateway: a function of the world's
-- state that returns a result and the new state. `W` is any type of such states.
use mathlib.Core.Path.{◌≡◌, refl, subst}
use brain.Base.Result.{Result, ok, err, ok-injective}

abbrev pub Io : Type 0 → Type 0 → Type 0 → Type 0
Io W E A = W → Result E A × W

-- What follows a step that returned `r` in world `w`.
abbrev pub follow : {W E A B : Type 0} → (A → Io W E B) → Result E A × W → Result E B × W
follow f (ok a, w) = f a w
follow f (err e, w) = (err e, w)

infixl 5 ◌>>=◌ ◌>>◌
abbrev pub ◌>>=◌ : {W E A B : Type 0} → Io W E A → (A → Io W E B) → Io W E B
◌>>=◌ m f w = follow f (m w)

abbrev pub ◌>>◌ : {W E A B : Type 0} → Io W E A → Io W E B → Io W E B
m >> k = m >>= λ _. k

abbrev pub pure : {W E A : Type 0} → A → Io W E A
pure a w = (ok a, w)

abbrev pub throw : {W E A : Type 0} → E → Io W E A
throw e w = (err e, w)

abbrev pub lift : {W E A : Type 0} → Result E A → Io W E A
lift r w = (r, w)

abbrev pub renamed : {W E F A : Type 0} → (E → F) → Result E A × W → Result F A × W
renamed f (ok a, w) = (ok a, w)
renamed f (err e, w) = (err (f e), w)

-- `.await.map_err(f)`
abbrev pub map_err : {W E F A : Type 0} → (E → F) → Io W E A → Io W F A
map_err f m w = renamed f (m w)

-- What an action returns, if it returns, satisfies `P`.
pub record Yields {W E A : Type 0} (P : A → Type 0) (m : Io W E A) : Type 0 where
  pub at : (w : W) (a : A) → (m w).0 ≡ ok a → P a

pub Yields-pure :
    {W E A : Type 0} (P : A → Type 0) (a : A) → P a → Yields {W = W} {E = E} P (pure a)
Yields-pure P a p = record { at = λ w b h. subst P (ok-injective h) p }

follow-at :
    {W E A B : Type 0} (Q : A → Type 0) (P : B → Type 0) (f : A → Io W E B)
    → ((a : A) → Q a → Yields P (f a))
    → (r : Result E A × W) → ((a : A) → r.0 ≡ ok a → Q a)
    → (b : B) → (follow f r).0 ≡ ok b
    → P b
follow-at Q P f rest (ok a, w) first b h = (rest a (first a refl)).at w b h
follow-at Q P f rest (err e, w) first b h = cc

-- The rest of an action may use what its first step yields.
pub Yields-bind :
    {W E A B : Type 0} (Q : A → Type 0) (P : B → Type 0) (m : Io W E A) (f : A → Io W E B)
    → Yields Q m
    → ((a : A) → Q a → Yields P (f a))
    → Yields P (m >>= f)
Yields-bind Q P m f first rest = record {
  at = λ w b h. follow-at Q P f rest (m w) (first.at w) b h;
}

pub Yields-any : {W E A : Type 0} (m : Io W E A) → Yields (λ _. Unit {0}) m
Yields-any m = record { at = λ w a h. tt }
