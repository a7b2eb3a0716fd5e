-- ===== src/Container/Reached.antt =====
-- What the success of a start means.
use brain.Base.{
  ℕ, zero, suc, ◌≡◌, refl, ◌<◌, String, Option, none, some, true, inl, inr, Bool-cases, leb,
}
use brain.Base.Fueled.{pure, await, modify}
use brain.Base.Fueled.Inversion.{Ended, bind-ok, pure-ok, await-ok, modify-ok}
use brain.Base.Fueled.Triples.{Done}
use brain.Base.Result.{Result, ok}
use brain.Container.Begun.{IsBegun, fails, ensure-IsBegun}
use brain.Container.Ensure.{
  StartupProbeSettings, ports_ready, verify_rounds, verify_startup, ensure,
}
use brain.Container.Error.{ContainerError}
use brain.Container.Model.{ContainerConfig}
use brain.Container.Kept.{Keeps, IsClock, always}
use brain.Container.Port.{ContainerId, ContainerPort, Host}
use brain.Container.Probed.{AllListen, ports_ready-AllListen}
use brain.Container.Verify.{verify_startup-Keeps}

module _ {W : Type 0} (port : ContainerPort W) (host : Host W) where
  -- The runtime has said that the container runs, and then every port has accepted a connection.
  pub record IsReached (id : ContainerId) (config : ContainerConfig) (probe_host : Option String)
      (v : W) : Type 0 where
    pub seen : W
    pub probed : W
    pub running : port.is_running id seen ≡ (ok true, probed)
    pub listening : AllListen host probe_host config.port_mappings probed v

  module _ (settings : StartupProbeSettings) (config : ContainerConfig) where
    seen_ready :
        (id : ContainerId) (probe_host : Option String) (w u x : W) (a : Unit) (v : W)
        → Ended {E = ContainerError} (await (port.is_running id)) w true u
        → Ended {E = ContainerError}
            (modify (ports_ready host config.port_mappings probe_host))
            u
            true
            x
        → Ended {E = ContainerError} (pure tt) x a v
        → IsReached id config probe_host v
    seen_ready id probe_host w u x a v asked ready ended =
        let (_, here) = pure-ok tt x a v ended in
        let listening = ports_ready-AllListen host _ probe_host u x (modify-ok _ u true x ready) in
        record {
          seen = w;
          probed = u;
          running = await-ok _ w true u asked;
          listening = rw (← here) listening;
        }

    verify_rounds-IsReached :
        (rounds : ℕ) (id : ContainerId) (probe_host : Option String) (deadline : ℕ) (w : W)
        (a : Unit) (v : W)
        → Ended (verify_rounds port host settings rounds id config probe_host deadline) w a v
        → IsReached id config probe_host v
    unfolding verify_rounds
    verify_rounds-IsReached zero id probe_host deadline w a v h = cc
    verify_rounds-IsReached (suc rounds) id probe_host deadline w a v h =
        let (running, (u, (asked, h1))) = bind-ok _ _ w a v h in
        elim (Bool-cases running) [
          | inr stopped ↦ absurd (fails port host settings config id _ u a v (rw stopped at h1))
          | inl runs ↦
              let (ready, (x, (probed, h2))) = bind-ok _ _ u a v (rw runs at h1) in
              elim (Bool-cases ready) [
                | inl reached ↦
                    seen_ready id probe_host w u x a v (rw runs at asked) (rw reached at probed)
                      (rw reached at h2)
                | inr refused ↦
                    let (instant, (y, (_, h3))) = bind-ok _ _ x a v (rw refused at h2) in
                    elim (Bool-cases (leb deadline instant)) [
                      | inl late ↦
                          absurd (fails port host settings config id _ y a v (rw late at h3))
                      | inr early ↦
                          let (_, (z, (_, h4))) = bind-ok _ _ y a v (rw early at h3) in
                          verify_rounds-IsReached rounds id probe_host deadline z a v h4
                    ]
              ]
        ]

    verify_startup-IsReached :
        (id : ContainerId) (probe_host : Option String) (w : W) (a : Unit) (v : W)
        → Ended (verify_startup port host settings id config probe_host) w a v
        → IsReached id config probe_host v
    unfolding verify_startup
    verify_startup-IsReached id probe_host w a v h =
        let (started_at, (u, (_, h1))) = bind-ok _ _ w a v h in
        verify_rounds-IsReached _ id probe_host _ u a v h1

    -- A start that succeeds has found the image, or has pulled it and found it then, and the name of
    -- the container free; it has prepared the network and run the container under the returned
    -- identity, and has returned the address that the runtime reports for it if the isolation strategy
    -- asks for one, and none otherwise. It has reached the container: after the runtime has said that
    -- it runs, every port mapping has accepted a connection, at the container's own address and port
    -- where an address is returned, at the address and the port of the host otherwise, and the last of
    -- them has left the world in which the start ends.
    pub ensure-IsReached :
        (w : W) (started : ContainerId × Option String) (v : W)
        → ensure port host settings config w ≡ some (ok started, v)
        → IsBegun port started.0 config started.1 w × IsReached started.0 config started.1 v
    ensure-IsReached w started v h =
        let (begun, (u, verified)) = ensure-IsBegun port host settings config w started v h in
        (begun, verify_startup-IsReached started.0 started.1 u tt v verified)

module _ {W E A : Type 0} where
  ended :
      (Q : A → W → Type 0) (R : E → W → Type 0) (o : Option (Result E A × W))
      → Done Q R o
      → (r : Result E A × W) × (o ≡ some r)
  ended Q R none h = absurd h
  ended Q R (some r) h = (r, refl)

-- The wait for a started container comes to an end, with a result or an error, whatever the runtime
-- and the network answer, if the clock does not go back, a sleep is as long as it says and the
-- interval is not zero. If it succeeds, the container is reached: the runtime has said that it runs,
-- and after that every port has accepted a connection.
pub verify_startup-Ends :
    {W : Type 0} (port : ContainerPort W) (host : Host W) (settings : StartupProbeSettings)
    (config : ContainerConfig) (id : ContainerId) (probe_host : Option String)
    → IsClock port host
    → 0 < settings.poll_interval
    → (w : W)
    → (r : Result ContainerError Unit × W) × ((verify_startup port host settings id config
            probe_host w
          ≡ some r)
        × (r.0 ≡ ok tt → IsReached port host id config probe_host r.1))
verify_startup-Ends {W} port host settings config id probe_host clock polls w =
    let (r, e) = ended _ _ _ (k.at w tt) in
    (
      r,
      (
        e,
        λ good.
            verify_startup-IsReached port host settings config id probe_host w tt r.1
              (rw (← good) e),
      ),
    )
  where
    k : Keeps (λ _. Unit) (verify_startup port host settings id config probe_host)
    k =
        verify_startup-Keeps port host settings clock (λ _. Unit) always (λ d w h. tt) polls id
          config probe_host
