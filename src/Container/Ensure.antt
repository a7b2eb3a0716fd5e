-- ===== src/Container/Ensure.antt =====
-- `EnsureContainerUseCase` of crates/core/src/application/ensure_container.rs. Times are in
-- milliseconds. What is only logged, the lines on the progress included, is left out.
use brain.Base.{
  ℕ, zero, suc, ◌+◌, ◌/◌, String, Option, none, some, Bool, true, false, List, [], ◌∷◌, map, leb,
  if◌then◌else◌,
}
use brain.Base.Fueled.{Fueled, ◌>>=◌, ◌>>◌, pure, throw, lift, await, modify, matched}
use brain.Base.Optional.{is_some}
use brain.Base.Result.{Result, ok, err}
use brain.Base.Text.{◌⧺◌}
use brain.Base.Text
use brain.Base.Whitespace.{trim, join}
use brain.Container.Error.{ContainerError, image_not_found, conflict, startup_failed, summary}
use brain.Container.Model.{
  ContainerConfig, ContainerNetworkIsolationStrategy, discover_container_ip, publish_to_loopback,
  PortMapping,
}
use brain.Container.Port.{ContainerId, ContainerPort, Host}
use brain.Domain.Decimal.{decimal}

pub record StartupProbeSettings : Type 0 where
  pub timeout : ℕ
  pub poll_interval : ℕ
  pub log_tail_lines : ℕ

abbrev pub default_settings : StartupProbeSettings
default_settings = record { timeout = 120_000; poll_interval = 200; log_tail_lines = 40 }

-- The fuel of the loop: a round for each interval until the timeout, and one after it.
abbrev pub startup_rounds : StartupProbeSettings → ℕ
startup_rounds settings = suc (suc (settings.timeout / settings.poll_interval))

abbrev pub target : Option String → PortMapping → String × ℕ
target (some host) mapping = (host, mapping.container_port)
target none mapping = (mapping.host_address, mapping.host_port)

abbrev pub address : String × ℕ → String
address place = place.0 ⧺ ":" ⧺ decimal place.1

-- `format_port_mappings`, and the text that `verify_startup` makes of a container's own address.
unfoldable pub probe_desc : List PortMapping → Option String → String
probe_desc mappings probe_host = join ", " (map (λ m. address (target probe_host m)) mappings)

abbrev pub strategy_discovers : Option ContainerNetworkIsolationStrategy → Bool
strategy_discovers none = false
strategy_discovers (some discover_container_ip) = true
strategy_discovers (some publish_to_loopback) = false

-- The recent output of a container, if there is any that is not white space.
unfoldable pub trimmed_logs : Result ContainerError String → Option String
trimmed_logs (err e) = none
trimmed_logs (ok output) =
    let trimmed = trim output in if Text.is_empty trimmed then none else some trimmed

-- What is done after a test of the outside world, which may change it.
abbrev pub branch : {W A : Type 0} → (W → A) → (W → A) → Bool × W → A
branch f g (true, w) = f w
branch f g (false, w) = g w

abbrev pub resolved :
    {W A : Type 0} → (W → A) → (List String → W → A) → Option (List String) × W → A
resolved failed found (none, w) = failed w
resolved failed found (some addrs, w) = found addrs w

module _ {W : Type 0} (host : Host W) where
  -- `addrs.any(connect)`: the first address that connects ends the search.
  unfoldable pub any_connects : List String → W → Bool × W
  any_connects [] w = (false, w)
  any_connects (addr ∷ addrs) w =
      branch (λ v. (true, v)) (λ v. any_connects addrs v) (host.connect_timeout addr w)

  unfoldable pub tcp_port_ready : String → ℕ → W → Bool × W
  unfolding any_connects
  tcp_port_ready name port w =
      resolved (λ v. (false, v)) (λ addrs v. any_connects addrs v)
        (host.to_socket_addrs name port w)

  unfoldable pub ports_ready : List PortMapping → Option String → W → Bool × W
  unfolding tcp_port_ready
  ports_ready [] probe_host w = (true, w)
  ports_ready (m ∷ mappings) probe_host w =
      let place = target probe_host m in
      branch (λ v. ports_ready mappings probe_host v) (λ v. (false, v))
        (tcp_port_ready place.0 place.1 w)

  -- `tokio::time::sleep(…).await`
  abbrev pub slept : ℕ → Fueled W ContainerError Unit
  slept interval = modify (λ w. (tt, host.sleep interval w))

  -- `Instant::now()`
  abbrev pub now : Fueled W ContainerError ℕ
  now = modify (λ w. (host.now w, w))

module _ {W : Type 0} (port : ContainerPort W) (host : Host W)
    (settings : StartupProbeSettings) where
  -- `Err(self.startup_failed(id, summary, true).await)`
  unfoldable pub fail_startup : {A : Type 0} → ContainerId → String → Fueled W ContainerError A
  fail_startup id text =
      matched (port.logs_tail id settings.log_tail_lines)
        λ logs. throw (startup_failed text (trimmed_logs logs) true)

  abbrev pub exited_text : ContainerConfig → String
  exited_text config = "container '" ⧺ config.name ⧺ "' exited during startup verification"

  abbrev pub timeout_text : ContainerConfig → Option String → String
  timeout_text config probe_host =
      "container '"
      ⧺ config.name
      ⧺ "' did not become reachable on "
      ⧺ probe_desc config.port_mappings probe_host
      ⧺ " before timeout"

  -- The loop of `verify_startup`.
  unfoldable pub verify_rounds :
      ℕ → ContainerId → ContainerConfig → Option String → ℕ → Fueled W ContainerError Unit
  verify_rounds zero id config probe_host deadline = λ w. none
  verify_rounds (suc rounds) id config probe_host deadline =
      let again = verify_rounds rounds id config probe_host deadline in
      (do
        running ← await (port.is_running id)
        (if running
            then (do
              ready ← modify (ports_ready host config.port_mappings probe_host)
              (if ready then pure tt else (do
                instant ← now host
                (if leb deadline instant
                    then fail_startup id (timeout_text config probe_host)
                    else slept host settings.poll_interval >> again))))
            else fail_startup id (exited_text config)))

  unfoldable pub verify_startup :
      ContainerId → ContainerConfig → Option String → Fueled W ContainerError Unit
  verify_startup id config probe_host = do
    started_at ← now host
    verify_rounds (startup_rounds settings) id config probe_host (started_at + settings.timeout)

  -- The pull of an image that is not there.
  unfoldable pub ensure_image : ContainerConfig → Fueled W ContainerError Unit
  ensure_image config = do
    there ← await (port.image_exists config.image)
    (if there then pure tt else (do
      await (port.pull_image config.image)
      pulled ← await (port.image_exists config.image)
      (if pulled then pure tt else throw (image_not_found config.image))))

  abbrev pub ip_missing : ContainerConfig → String
  ip_missing config = "container '" ⧺ config.name ⧺ "' started but did not report a container IP"

  abbrev pub ip_failed : ContainerConfig → ContainerError → String
  unfolding summary
  ip_failed config error =
      "container '" ⧺ config.name ⧺ "' started but failed during IP discovery: " ⧺ summary error

  abbrev pub discovered_ip :
      ContainerId
      → ContainerConfig
      → Result ContainerError (Option String)
      → Fueled W ContainerError (Option String)
  discovered_ip id config (ok (some container_ip)) = pure (some container_ip)
  discovered_ip id config (ok none) = fail_startup id (ip_missing config)
  discovered_ip id config (err error) = fail_startup id (ip_failed config error)

  -- The address of a container that is not published to the loopback interface.
  unfoldable pub discover_ip :
      ContainerId → ContainerConfig → Fueled W ContainerError (Option String)
  discover_ip id config =
      if strategy_discovers config.isolation_strategy
      then matched (port.get_container_ip id) (discovered_ip id config)
      else pure none

  abbrev pub name_taken : ContainerConfig → ContainerError
  name_taken config =
      conflict
        ("container name '" ⧺ config.name ⧺ "' already exists; choose a different container name")

  -- The network, the start and the address of a container whose name is free.
  unfoldable pub start_container :
      ContainerConfig → Fueled W ContainerError (ContainerId × Option String)
  start_container config =
      let internal = is_some config.isolation_strategy in
      (do
        (if internal then lift (port.validate_internal_network_support config) else pure tt)
        await (port.ensure_network config.network_name internal)
        id ← await (port.run config)
        container_ip ← discover_ip id config
        pure (id, container_ip))

  unfoldable pub ensure : ContainerConfig → Fueled W ContainerError (ContainerId × Option String)
  ensure config = do
    ensure_image config
    taken ← await (port.exists config.name)
    (if taken then throw (name_taken config) else (do
      started ← start_container config
      verify_startup started.0 config started.1
      pure started))
