-- ===== src/Container/Verify.antt =====
-- The wait for a started container: that it ends, and what its success means.
use brain.Base.{
  ℕ, zero, suc, ◌<◌, ◌≡◌, refl, String, Option, none, some, Bool, true, false, List, [], ◌∷◌, arith,
}
use brain.Base.Fueled.Triples.{Total, Total-bind, Total-if, Total-modify, Total-weaken}
use brain.Container.Ensure.{
  StartupProbeSettings, any_connects, tcp_port_ready, ports_ready, fail_startup, verify_rounds,
  verify_startup, target, branch, resolved,
}
use brain.Container.Kept.{
  Kept, Keeps, Keeps-await, Keeps-then, Keeps-pure, Keeps-throw, Keeps-modify, Keeps-from,
  Keeps-matched, IsClock,
}
use brain.Container.Model.{ContainerConfig, PortMapping}
use brain.Container.Polling.{Near, Near-Kept, Goes, rounds-le, late_or_again-Total}
use brain.Container.Port.{ContainerId, ContainerPort, Host}

branch-keeps :
    {W : Type 0} (Inv : W → Type 0) (t e : W → Bool × W) (r : Bool × W)
    → Inv r.1
    → ((w : W) → Inv w → Inv (t w).1)
    → ((w : W) → Inv w → Inv (e w).1)
    → Inv (branch t e r).1
branch-keeps Inv t e (true, w) j f g = f w j
branch-keeps Inv t e (false, w) j f g = g w j

resolved-keeps :
    {W : Type 0} (Inv : W → Type 0) (failed : W → Bool × W) (found : List String → W → Bool × W)
    (r : Option (List String) × W)
    → Inv r.1
    → ((w : W) → Inv w → Inv (failed w).1)
    → ((addrs : List String) (w : W) → Inv w → Inv (found addrs w).1)
    → Inv (resolved failed found r).1
resolved-keeps Inv failed found (none, w) j f g = f w j
resolved-keeps Inv failed found (some addrs, w) j f g = g addrs w j

module _ {W : Type 0} (port : ContainerPort W) (host : Host W) (Inv : W → Type 0)
    (kept : Kept port host Inv) where
  any_connects-keeps : (addrs : List String) (w : W) → Inv w → Inv (any_connects host addrs w).1
  unfolding any_connects
  any_connects-keeps [] w h = h
  any_connects-keeps (addr ∷ addrs) w h =
      branch-keeps Inv _ _ _ (kept.connect_timeout addr w h) (λ v j. j) (any_connects-keeps addrs)

  tcp_port_ready-keeps :
      (name : String) (n : ℕ) (w : W) → Inv w → Inv (tcp_port_ready host name n w).1
  unfolding tcp_port_ready
  tcp_port_ready-keeps name n w h =
      resolved-keeps Inv _ _ _ (kept.to_socket_addrs name n w h) (λ v j. j) any_connects-keeps

  pub ports_ready-keeps :
      (mappings : List PortMapping) (probe_host : Option String) (w : W)
      → Inv w
      → Inv (ports_ready host mappings probe_host w).1
  unfolding ports_ready
  ports_ready-keeps [] probe_host w h = h
  ports_ready-keeps (m ∷ mappings) probe_host w h =
      let place = target probe_host m in
      branch-keeps Inv _ _ _ (tcp_port_ready-keeps place.0 place.1 w h)
        (ports_ready-keeps mappings probe_host) (λ v j. j)

  pub fail_startup-Keeps :
      {A : Type 0} (settings : StartupProbeSettings) (id : ContainerId) (text : String)
      → Keeps Inv (fail_startup port host settings {A = A} id text)
  unfolding fail_startup
  fail_startup-Keeps settings id text =
      Keeps-matched _ _ (kept.logs_tail id settings.log_tail_lines) (λ logs. Keeps-throw _)

-- The loop ends: before each round the deadline is at most as many intervals away as rounds are left.
module _ {W : Type 0} (port : ContainerPort W) (host : Host W) (settings : StartupProbeSettings)
    (clock : IsClock port host) (Inv : W → Type 0) (kept : Kept port host Inv)
    (rests : (d : ℕ) (w : W) → Inv w → Inv (host.sleep d w))
    (polls : 0 < settings.poll_interval) where
  verify_round-Keeps :
      (rounds : ℕ) (id : ContainerId) (config : ContainerConfig) (probe_host : Option String)
      (deadline : ℕ)
      → Goes clock Inv settings.poll_interval deadline rounds
          (verify_rounds port host settings rounds id config probe_host deadline)
      → Total
          (Near host Inv settings.poll_interval deadline rounds)
          (λ _. Inv)
          (λ _. Inv)
          (verify_rounds port host settings (suc rounds) id config probe_host deadline)
  unfolding verify_rounds
  verify_round-Keeps rounds id config probe_host deadline goes =
      Keeps-then P _ _ (λ w p. p.0) (Keeps-await _ (K.is_running id))
        λ running.
          Total-if P _ _ running _ _
            (λ _.
              Keeps-then P _ _ (λ w p. p.0)
                (Keeps-modify _ (ports_ready-keeps port host P K config.port_mappings probe_host))
                λ ready.
                  Total-if P _ _ ready _ _ (λ _. Keeps-from P _ (λ w p. p.0) (Keeps-pure tt))
                    (λ _.
                      late_or_again-Total clock Inv settings.poll_interval deadline rounds _ _ rests
                        (fail _) goes))
            (λ _. Keeps-from P _ (λ w p. p.0) (fail _))
    where
      P : W → Type 0
      P = Near host Inv settings.poll_interval deadline rounds

      K : Kept port host P
      K = Near-Kept clock Inv settings.poll_interval deadline rounds kept

      fail : (text : String) → Keeps Inv (fail_startup port host settings {A = Unit} id text)
      fail = fail_startup-Keeps port host Inv kept settings id

  verify_rounds-Keeps :
      (rounds : ℕ) (id : ContainerId) (config : ContainerConfig) (probe_host : Option String)
      (deadline : ℕ)
      → Total
          (Near host Inv settings.poll_interval deadline rounds)
          (λ _. Inv)
          (λ _. Inv)
          (verify_rounds port host settings (suc rounds) id config probe_host deadline)
  verify_rounds-Keeps zero id config probe_host deadline =
      verify_round-Keeps zero id config probe_host deadline tt
  verify_rounds-Keeps (suc left) id config probe_host deadline =
      verify_round-Keeps (suc left) id config probe_host deadline
        (verify_rounds-Keeps left id config probe_host deadline)

  pub verify_startup-Keeps :
      (id : ContainerId) (config : ContainerConfig) (probe_host : Option String)
      → Keeps Inv (verify_startup port host settings id config probe_host)
  unfolding verify_startup
  verify_startup-Keeps id config probe_host =
      Total-bind Inv (λ started_at w. Inv w × (started_at ≡ host.now w)) _ _ _ _
        (Total-modify _ (λ started_at w. Inv w × (started_at ≡ host.now w)) _ _ (λ w p. (p, refl)))
        λ started_at.
          Total-weaken _ _ _ _ _ _ _
            (λ w p. (
              p.0,
              let at = p.1 in
                  grind (arith, rounds-le settings.timeout settings.poll_interval polls),
            ))
            (λ a w j. j) (λ e w j. j) (verify_rounds-Keeps _ id config probe_host _)
