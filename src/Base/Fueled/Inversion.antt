-- ===== src/Base/Fueled/Inversion.antt =====
-- What a step of `Fueled` that came to an end with a value has done.
use brain.Base.{◌≡◌, refl, Option, none, some}
use brain.Base.Fueled.{Fueled, follow, on_ok, ◌>>=◌, pure, throw, lift, await, modify, matched}
use brain.Base.Io.{Io}
use brain.Base.Result.{Result, ok, err}

-- The step came to an end with a value, in a world.
abbrev pub Ended : {W E A : Type 0} → Fueled W E A → W → A → W → Type 0
Ended m w a v = m w ≡ some (ok a, v)

module _ {W E A B : Type 0} where
  follow-ok :
      (f : A → Fueled W E B) (o : Option (Result E A × W)) (b : B) (v : W)
      → follow (on_ok f) o ≡ some (ok b, v)
      → (a : A) × ((u : W) × ((o ≡ some (ok a, u)) × Ended (f a) u b v))
  follow-ok f none b v h = cc
  follow-ok f (some (ok a, u)) b v h = (a, (u, (refl, h)))
  follow-ok f (some (err e, u)) b v h = cc

  pub bind-ok :
      (m : Fueled W E A) (f : A → Fueled W E B) (w : W) (b : B) (v : W)
      → Ended (m >>= f) w b v
      → (a : A) × ((u : W) × (Ended m w a u × Ended (f a) u b v))
  unfolding ◌>>=◌
  bind-ok m f w b v h = follow-ok f (m w) b v h

  pub matched-ok :
      (m : Io W E A) (f : Result E A → Fueled W E B) (w : W) (b : B) (v : W)
      → Ended (matched m f) w b v
      → (r : Result E A) × ((u : W) × ((m w ≡ (r, u)) × Ended (f r) u b v))
  unfolding matched
  matched-ok m f w b v h = ((m w).0, ((m w).1, (refl, h)))

  pub matched-throw :
      (m : Io W E A) (f : Result E A → E) (w : W) (b : B) (v : W)
      → Ended (matched m (λ r. throw (f r))) w b v
      → ⊥
  unfolding matched
  matched-throw m f w b v h = cc

module _ {W E A : Type 0} where
  pub throw-ok : (e : E) (w : W) (a : A) (v : W) → Ended (throw e) w a v → ⊥
  unfolding throw
  throw-ok e w a v h = cc

  pub pure-ok : (x : A) (w : W) (a : A) (v : W) → Ended {E = E} (pure x) w a v → (x ≡ a) × (w ≡ v)
  unfolding pure
  pure-ok x w a v h = (cc, cc)

  pub lift-ok :
      (r : Result E A) (w : W) (a : A) (v : W) → Ended (lift r) w a v → (r ≡ ok a) × (w ≡ v)
  unfolding lift
  lift-ok r w a v h = (cc, cc)

  pub await-ok : (m : Io W E A) (w : W) (a : A) (v : W) → Ended (await m) w a v → m w ≡ (ok a, v)
  unfolding await
  await-ok m w a v h = cc

  pub modify-ok :
      (f : W → A × W) (w : W) (a : A) (v : W) → Ended {E = E} (modify f) w a v → f w ≡ (a, v)
  unfolding modify
  modify-ok f w a v h = let e : (f w).0 ≡ a = cc in let e' : (f w).1 ≡ v = cc in rw (e, e') refl
