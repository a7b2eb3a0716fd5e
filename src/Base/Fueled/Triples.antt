-- ===== src/Base/Fueled/Triples.antt =====
-- Triples for code with loops: what holds before, after a value and after an error.
use mathlib.Core.Path.{◌≡◌, refl}
use mathlib.Core.Option.{Option, none, some}
use mathlib.Core.Bool.{Bool, true, false}
use brain.Base.Result.{Result, ok, err}
use brain.Base.Io.{Io}
use brain.Base.Tests.{if◌then◌else◌}
use brain.Base.Fueled.{Fueled, follow, on_ok, ◌>>=◌, await, modify, matched}

module _ {W E A : Type 0} where
  -- The run came to an end, with a value that satisfies `Q` or with an error that satisfies `R`.
  abbrev pub Done : (A → W → Type 0) → (E → W → Type 0) → Option (Result E A × W) → Type 0
  Done Q R none = ⊥
  Done Q R (some (ok a, w)) = Q a w
  Done Q R (some (err e, w)) = R e w

  -- From every world that satisfies `P`, the code comes to such an end.
  pub record Total (P : W → Type 0) (Q : A → W → Type 0) (R : E → W → Type 0) (m : Fueled W E A)
      : Type 0 where
    pub at : (w : W) → P w → Done Q R (m w)

  pub Done-weaken :
      (Q Q' : A → W → Type 0) (R R' : E → W → Type 0)
      → ((a : A) (w : W) → Q a w → Q' a w)
      → ((e : E) (w : W) → R e w → R' e w)
      → (o : Option (Result E A × W)) → Done Q R o
      → Done Q' R' o
  Done-weaken Q Q' R R' f g none h = h
  Done-weaken Q Q' R R' f g (some (ok a, w)) h = f a w h
  Done-weaken Q Q' R R' f g (some (err e, w)) h = g e w h

  pub Total-weaken :
      (P P' : W → Type 0) (Q Q' : A → W → Type 0) (R R' : E → W → Type 0) (m : Fueled W E A)
      → ((w : W) → P' w → P w)
      → ((a : A) (w : W) → Q a w → Q' a w)
      → ((e : E) (w : W) → R e w → R' e w)
      → Total P Q R m
      → Total P' Q' R' m
  Total-weaken P P' Q Q' R R' m before f g h = record {
    at = λ w p. Done-weaken Q Q' R R' f g (m w) (h.at w (before w p));
  }

  pub Total-modify :
      (P : W → Type 0) (Q : A → W → Type 0) (R : E → W → Type 0) (f : W → A × W)
      → ((w : W) → P w → Q (f w).0 (f w).1)
      → Total P Q R (modify f)
  unfolding modify
  Total-modify P Q R f h = record { at = h }

  -- A step that cannot be reached.
  pub Total-absurd :
      (P : W → Type 0) (Q : A → W → Type 0) (R : E → W → Type 0) (m : Fueled W E A)
      → ((w : W) → P w → ⊥)
      → Total P Q R m
  Total-absurd P Q R m h = record { at = λ w p. absurd (h w p) }

  pub Total-if :
      (P : W → Type 0) (Q : A → W → Type 0) (R : E → W → Type 0) (b : Bool) (m k : Fueled W E A)
      → (b ≡ true → Total P Q R m)
      → (b ≡ false → Total P Q R k)
      → Total P Q R (if b then m else k)
  Total-if P Q R true m k f g = f refl
  Total-if P Q R false m k f g = g refl

Done-follow :
    {W E A B : Type 0} (Q : A → W → Type 0) (R : E → W → Type 0) (S : B → W → Type 0)
    (f : A → Fueled W E B)
    → ((a : A) → Total (Q a) S R (f a))
    → (o : Option (Result E A × W)) → Done Q R o
    → Done S R (follow (on_ok f) o)
Done-follow Q R S f rest none h = h
Done-follow Q R S f rest (some (ok a, w)) h = (rest a).at w h
Done-follow Q R S f rest (some (err e, w)) h = h

pub Total-bind :
    {W E A B : Type 0} (P : W → Type 0) (Q : A → W → Type 0) (R : E → W → Type 0)
    (S : B → W → Type 0) (m : Fueled W E A) (f : A → Fueled W E B)
    → Total P Q R m
    → ((a : A) → Total (Q a) S R (f a))
    → Total P S R (m >>= f)
unfolding ◌>>=◌
Total-bind P Q R S m f first rest = record {
  at = λ w p. Done-follow Q R S f rest (m w) (first.at w p);
}

-- The rest of a match, for each of the two results.
pub Total-matched :
    {W E F A B : Type 0} (P : W → Type 0) (Q : A → W → Type 0) (R : E → W → Type 0)
    (S : B → W → Type 0) (T : F → W → Type 0) (m : Io W E A) (f : Result E A → Fueled W F B)
    → Total P Q R (await m)
    → ((a : A) → Total (Q a) S T (f (ok a)))
    → ((e : E) → Total (R e) S T (f (err e)))
    → Total P S T (matched m f)
unfolding matched await
Total-matched {W = W} {E = E} {A = A} P Q R S T m f first good bad = record {
  at = λ w p. each (m w) (first.at w p);
}
  where
    each : (r : Result E A × W) → Done Q R (some r) → Done S T (follow f (some r))
    each (ok a, w) h = (good a).at w h
    each (err e, w) h = (bad e).at w h
