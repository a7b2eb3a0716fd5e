-- ===== src/Container/Polling.antt =====
-- The end of a loop that sleeps until a deadline: the part that the two waits for a container share.
use brain.Base.{ℕ, zero, suc, ◌*◌, ◌-◌, ◌/◌, ◌≤◌, ◌<◌, ◌≡◌, refl, false, arith, leb, if◌then◌else◌}
use brain.Base.Fueled.{Fueled, ◌>>=◌, ◌>>◌}
use brain.Base.Fueled.Triples.{Total, Total-bind, Total-modify, Total-absurd, Total-if}
use brain.Container.Ensure.{slept, now}
use brain.Container.Error.{ContainerError}
use brain.Container.Kept.{Kept, Kept-both, Keeps, Keeps-from, IsClock}
use brain.Container.Port.{ContainerPort, Host}

-- Before a round the deadline is at most as many intervals away as rounds are left after it.
abbrev pub Near : {W : Type 0} → Host W → (W → Type 0) → ℕ → ℕ → ℕ → W → Type 0
Near host Inv interval deadline rounds w = Inv w × (deadline - rounds * interval ≤ host.now w)

-- The same at an instant that the clock has just shown.
abbrev At : {W : Type 0} → Host W → (W → Type 0) → ℕ → ℕ → ℕ → ℕ → W → Type 0
At host Inv interval deadline rounds instant w =
    Near host Inv interval deadline rounds w × (instant ≡ host.now w)

-- As many rounds as there are intervals before the deadline, and one more, are enough.
pub rounds-le :
    (timeout interval : ℕ) → 0 < interval → timeout ≤ suc (timeout / interval) * interval
rounds-le timeout interval h = grind arith

module _ {W : Type 0} {port : ContainerPort W} {host : Host W} (clock : IsClock port host) where
  pub Near-Kept :
      (Inv : W → Type 0) (interval deadline rounds : ℕ)
      → Kept port host Inv
      → Kept port host (Near host Inv interval deadline rounds)
  Near-Kept Inv interval deadline rounds kept =
      Kept-both kept (clock.goes_on (deadline - rounds * interval))

  module _ {A : Type 0} (Inv : W → Type 0) (interval deadline : ℕ) where
    -- The rounds that are left come to an end.
    abbrev pub Goes : ℕ → Fueled W ContainerError A → Type 0
    Goes zero again = Unit
    Goes (suc left) again = Total (Near host Inv interval deadline left) (λ _. Inv) (λ _. Inv) again

    sleeps_again-Total :
        (rounds instant : ℕ) (again : Fueled W ContainerError A)
        → ((d : ℕ) (w : W) → Inv w → Inv (host.sleep d w))
        → leb deadline instant ≡ false
        → Goes rounds again
        → Total
            (At host Inv interval deadline rounds instant)
            (λ _. Inv)
            (λ _. Inv)
            (slept host interval >> again)
    sleeps_again-Total zero instant again rests early goes =
        Total-absurd (At host Inv interval deadline zero instant) _ _ _
          λ w p. ground (arith, p.0.1, p.1)
    sleeps_again-Total (suc left) instant again rests early goes =
        Total-bind (At host Inv interval deadline (suc left) instant)
          (λ _. Near host Inv interval deadline left) _ _ _ _
          (Total-modify _ _ _ _ λ w p.
            (rests interval w p.0.0, let near = p.0.1 in grind (arith, clock.sleeps interval w)))
          (λ _. goes)

    -- The end of a round: what is done late, or a sleep and the rounds that are left.
    pub late_or_again-Total :
        (rounds : ℕ) (late again : Fueled W ContainerError A)
        → ((d : ℕ) (w : W) → Inv w → Inv (host.sleep d w))
        → Keeps Inv late
        → Goes rounds again
        → Total
            (Near host Inv interval deadline rounds)
            (λ _. Inv)
            (λ _. Inv)
            (now host >>= λ instant.
              if leb deadline instant then late else slept host interval >> again)
    late_or_again-Total rounds late again rests ends goes =
        Total-bind (Near host Inv interval deadline rounds) (At host Inv interval deadline rounds) _
          _ _ _ (Total-modify _ (At host Inv interval deadline rounds) _ _ (λ w p. (p, refl)))
          λ instant.
            Total-if (At host Inv interval deadline rounds instant) _ _ (leb deadline instant) _ _
              (λ _.
                Keeps-from (At host Inv interval deadline rounds instant) late (λ w p. p.0.0) ends)
              (λ early. sleeps_again-Total rounds instant again rests early goes)
