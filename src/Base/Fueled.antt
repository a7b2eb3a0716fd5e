-- ===== src/Base/Fueled.antt =====
-- Code with loops that acts on the world outside the gateway: like `Io`, with a loop on fuel as a
-- further reason to have no result. `none` stands for a loop that has not come to its end.
pub mod Inversion
pub mod Triples
use mathlib.Core.Option.{Option, none, some}
use brain.Base.Result.{Result, ok, err}
use brain.Base.Io.{Io}

abbrev pub Fueled : Type 0 → Type 0 → Type 0 → Type 0
Fueled W E A = W → Option (Result E A × W)

-- What follows a step that came to an end, or did not.
abbrev pub follow :
    {W E F A B : Type 0}
    → (Result E A → Fueled W F B)
    → Option (Result E A × W)
    → Option (Result F B × W)
follow f none = none
follow f (some (r, w)) = f r w

abbrev pub on_ok : {W E A B : Type 0} → (A → Fueled W E B) → Result E A → Fueled W E B
on_ok f (ok a) w = f a w
on_ok f (err e) w = some (err e, w)

module _ {W E A : Type 0} where
  unfoldable pub pure : A → Fueled W E A
  pure a w = some (ok a, w)

  unfoldable pub throw : E → Fueled W E A
  throw e w = some (err e, w)

  unfoldable pub lift : Result E A → Fueled W E A
  lift r w = some (r, w)

  -- `.await?` of a call that is not a loop.
  unfoldable pub await : Io W E A → Fueled W E A
  await m w = some (m w)

  -- A change of the world that cannot fail, such as a sleep, and a reading of it.
  unfoldable pub modify : (W → A × W) → Fueled W E A
  modify f w = let r = f w in some (ok r.0, r.1)

infixl 5 ◌>>=◌ ◌>>◌
-- Opening this opens the other steps too.
unfoldable pub ◌>>=◌ : {W E A B : Type 0} → Fueled W E A → (A → Fueled W E B) → Fueled W E B
unfolding pure throw lift await modify
◌>>=◌ m f w = follow (on_ok f) (m w)

abbrev pub ◌>>◌ : {W E A B : Type 0} → Fueled W E A → Fueled W E B → Fueled W E B
m >> k = m >>= λ _. k

-- `match m.await { … }`
unfoldable pub matched :
    {W E F A B : Type 0} → Io W E A → (Result E A → Fueled W F B) → Fueled W F B
unfolding ◌>>=◌
matched m f w = follow f (some (m w))
