-- ===== src/Config/EnvFile/Coherent.antt =====
-- The configuration that crates/platform/src/config/env_file.rs loads, as a whole.
use brain.Base.{
  ◌<◌, ◌≡◌, refl, String, Option, none, some, Bool, true, false, ◌&&◌, ◌==◌, [], ◌∷◌, List, arith,
  inl, inr, Bool-cases,
}
use brain.Base.Optional.{is_some}
use brain.Base.Result.{ok, bind-ok, ok-injective}
use brain.Base.Text.{is_empty, ◌⧺◌}
use brain.Base.Whitespace.{trim}
use brain.Config.EnvFile.{
  Process, env_var_or, port_of, lifetime, require_nonempty, require_nonempty_env, env_bool,
  load_access_mode, resolve_token_db_path, load_local_mcp_config, load_upstream_shared_secret,
  load_native_audio_transcription_config, trimmed,
}
use brain.Config.EnvFile.Given.{
  IsGiven, HasToken, port_bound, lifetime_bounds, load_local_mcp_config-HasToken,
  load_native_audio_transcription_config-positive, require_nonempty-IsGiven,
}
use brain.Config.EnvFile.Hosted.{IsHosted, tunnel-IsHosted}
use brain.Config.EnvFile.Hosts.{resolve_expected_host, load_tunnel_config}
use brain.Config.EnvFile.Load.{GatewayConfig, Credentials, unless_missing, credentials, load}
use brain.Config.EnvFile.Startup.{
  is_docker, parse_runtime, check_repo, checked_tag, container_name_of, isolation_strategy,
  load_container_startup_config, startup_of, validate_network_isolation_support,
}
use brain.Container.Model.{
  ContainerStartupConfig, ContainerRuntime, ContainerNetworkIsolationStrategy,
}

-- The container is given the secret that the proxy sends, and is not isolated where the runtime
-- cannot isolate it.
abbrev pub IsStarted : Process → String → Option ContainerStartupConfig → Type 0
IsStarted process secret none = Unit
IsStarted process secret (some config) =
    (config.upstream_secret ≡ secret)
    × (config.host_port < 65536)
    × (config.container_port < 65536)
    × ((is_some config.isolation_strategy && is_docker config.runtime && process.os == "macos")
        ≡ false)

pub record IsCoherent (process : Process) (config : GatewayConfig) : Type 0 where
  pub port : config.port < 65536
  pub access_lifetime : 0 < config.oauth.access_token_lifetime_secs
  pub refresh_lifetime : 0 < config.oauth.refresh_token_lifetime_secs
  pub client_secret : IsGiven config.oauth.client_secret
  pub username : IsGiven config.oauth.username
  pub password : IsGiven config.oauth.password
  pub local : HasToken config.local_mcp
  pub audio : 0 < config.native_audio_transcription.max_audio_bytes
  pub container : IsStarted process config.mcp_reverse_proxy.upstream_secret config.container
  pub hosted : IsHosted process config.port config.tunnel config.hostname_validation.expected_host

unless_missing-none :
    (names : List String) (given c : Credentials)
    → unless_missing names given ≡ ok c
    → (names ≡ []) × (given ≡ c)
unless_missing-none [] given c h = (refl, ok-injective h)
unless_missing-none (name ∷ names) given c h = absurd (ground arith)

module _ (process : Process) where
  credentials-IsGiven :
      (c : Credentials)
      → credentials process ≡ ok c
      → IsGiven c.client_secret × IsGiven c.username × IsGiven c.password
  unfolding credentials
  credentials-IsGiven c h =
      let secret = require_nonempty process "B3_OAUTH2_GATEWAY_CLIENT_SECRET" [] in
      let user = require_nonempty process "B3_USERNAME" secret.1 in
      let pass = require_nonempty process "B3_PASSWORD" user.1 in
      let (reported, same) = unless_missing-none pass.1 _ c h in
      let (password, reported_1) = require_nonempty-IsGiven process "B3_PASSWORD" user.1 reported in
      let (username, reported_2) =
        require_nonempty-IsGiven process "B3_USERNAME" secret.1 reported_1 in
      let (client_secret, _) =
        require_nonempty-IsGiven process "B3_OAUTH2_GATEWAY_CLIENT_SECRET" [] reported_2 in
      rw (← same) (client_secret, username, password)

  -- A strategy is chosen only where isolation is asked for, and that has been checked.
  isolation-supported :
      (runtime : ContainerRuntime) (isolated : Bool) (u : Unit)
      (strategy : Option ContainerNetworkIsolationStrategy)
      → validate_network_isolation_support process runtime isolated ≡ ok u
      → isolation_strategy process runtime isolated ≡ ok strategy
      → (is_some strategy && is_docker runtime && process.os == "macos") ≡ false
  unfolding validate_network_isolation_support
  isolation-supported runtime false u strategy v s = rw (← ok-injective s) refl
  isolation-supported runtime true u strategy v s = ground arith

  startup_of-IsStarted :
      (secret runtime_str : String) (config : Option ContainerStartupConfig)
      → startup_of process secret runtime_str ≡ ok config
      → IsStarted process secret config
  unfolding startup_of
  startup_of-IsStarted secret runtime_str config h =
      let isolated = env_bool process "B3_CONTAINER_INTERNAL_NETWORK_ISOLATION" true in
      let context : String = "when B3_CONTAINER_RUNTIME is set" in
      let (runtime, (_, h1)) = bind-ok (parse_runtime runtime_str) _ config h in
      let (vault, (_, h2)) =
        bind-ok (require_nonempty_env process "B3_VAULT_PATH" context) _ config h1 in
      let (repo, (_, h3)) =
        bind-ok (require_nonempty_env process "B3_CONTAINER_IMAGE_REPO" context) _ config h2 in
      let (_, (_, h4)) = bind-ok (check_repo repo) _ config h3 in
      let (tag, (_, h5)) =
        bind-ok (checked_tag (env_var_or process "B3_CONTAINER_IMAGE_TAG" "")) _ config h4 in
      let (name, (_, h6)) =
        bind-ok (container_name_of (repo ⧺ ":" ⧺ tag) (trimmed process "B3_CONTAINER_NAME")) _
          config h5 in
      let (host_port, (host, h7)) =
        bind-ok (port_of process "B3_CONTAINER_HOST_PORT" "2765") _ config h6 in
      let (container_port, (inner, h8)) =
        bind-ok (port_of process "B3_CONTAINER_MCP_PORT" "2765") _ config h7 in
      let (u, (valid, h9)) =
        bind-ok (validate_network_isolation_support process runtime isolated) _ config h8 in
      let (strategy, (chosen, same)) =
        bind-ok (isolation_strategy process runtime isolated) _ config h9 in
      rw (← ok-injective same) (
        refl,
        port_bound process "B3_CONTAINER_HOST_PORT" "2765" host_port host,
        port_bound process "B3_CONTAINER_MCP_PORT" "2765" container_port inner,
        isolation-supported runtime isolated u strategy valid chosen,
      )

  container-IsStarted :
      (secret : String) (config : Option ContainerStartupConfig)
      → load_container_startup_config process secret ≡ ok config
      → IsStarted process secret config
  unfolding load_container_startup_config
  container-IsStarted secret config h =
      let runtime_str = trim (env_var_or process "B3_CONTAINER_RUNTIME" "") in
      elim (Bool-cases (is_empty runtime_str)) [
        | inl unset ↦ rw (← ok-injective (rw unset at h)) tt
        | inr set ↦ startup_of-IsStarted secret runtime_str config (rw set at h)
      ]

  -- Whatever the variables are, a configuration that loads has a port below 2 ^ 16, lifetimes and an
  -- audio limit above zero, a client secret, user name and password that are not blank, and a token
  -- for the local endpoint where there is one. A container has the secret that the proxy sends,
  -- ports below 2 ^ 16, and no network isolation under Docker on macOS. The host that requests are
  -- checked against is unknown for a quick tunnel, which is there exactly when B3_CF_QUICK_TUNNEL asks
  -- for it, whatever the variables of a named one; it is that of the tunnel for a named one, in which
  -- case no direct origin is set, and that of the direct origin without a tunnel.
  pub load-IsCoherent :
      (home_override : Option String) (config : GatewayConfig)
      → load process home_override ≡ ok config
      → IsCoherent process config
  unfolding load
  load-IsCoherent home_override config h =
      let secret = load_upstream_shared_secret process in
      let (port, (p, h1)) = bind-ok (port_of process "B3_OAUTH2_GATEWAY_PORT" "2763") _ config h in
      let (access, (a, h2)) =
        bind-ok (lifetime process "B3_OAUTH2_ACCESS_TOKEN_LIFETIME_SECS" "3600") _ config h1 in
      let (refresh, (r, h3)) =
        bind-ok (lifetime process "B3_OAUTH2_REFRESH_TOKEN_LIFETIME_SECS" "7776000") _ config h2 in
      let (_, (_, h4)) = bind-ok (load_access_mode process) _ config h3 in
      let (host, (x, h5)) = bind-ok (resolve_expected_host process) _ config h4 in
      let (_, (_, h6)) = bind-ok (resolve_token_db_path process home_override) _ config h5 in
      let (local, (l, h7)) = bind-ok (load_local_mcp_config process) _ config h6 in
      let (container, (c, h8)) =
        bind-ok (load_container_startup_config process secret) _ config h7 in
      let (audio, (n, h9)) =
        bind-ok (load_native_audio_transcription_config process home_override) _ config h8 in
      let (given, (g, h10)) = bind-ok (credentials process) _ config h9 in
      let (tunnel, (t, same)) = bind-ok (load_tunnel_config process port) _ config h10 in
      let (client_secret, username, password) = credentials-IsGiven given g in
      rw (← ok-injective same) (record {
        port = port_bound process "B3_OAUTH2_GATEWAY_PORT" "2763" port p;
        access_lifetime = (lifetime_bounds process _ _ access a).0;
        refresh_lifetime = (lifetime_bounds process _ _ refresh r).0;
        client_secret = client_secret;
        username = username;
        password = password;
        local = load_local_mcp_config-HasToken process local l;
        audio = load_native_audio_transcription_config-positive process home_override audio n;
        container = container-IsStarted secret container c;
        hosted = tunnel-IsHosted process port host tunnel x t;
      })
