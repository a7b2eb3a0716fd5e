-- ===== src/Setup/Wizard.antt =====
-- `FirstRunSetupUseCase` in crates/core/src/application/first_run_setup.rs, over the port of
-- ports/setup_system.rs. Paths are texts, absolute as on Unix.
use brain.Base.{ℕ, ◌*◌, String, Option, none, some, Bool, true, false, ◌&&◌, nat_eq, if◌then◌else◌}
use brain.Base.Optional.{is_some}
use brain.Base.Io.{Io, ◌>>=◌, ◌>>◌, pure, throw}
use brain.Base.Text.{◌⧺◌, is_empty, strip_prefix}
use brain.Base.Whitespace.{trim}
use brain.Config.EnvFile
use brain.Config.EnvFile.{AccessMode}
use brain.Config.EnvFile.Hosts
use brain.Config.EnvFile.Hosts.{TunnelConfig}
use brain.Config.EnvFile.Load.{GatewayConfig}
use brain.Container.Model.{ContainerRuntime, docker, macos_container}
use brain.Setup.Model.{
  SetupError, invalid, SetupPaths, AccessModeDraft, local_only, remote_only, both, TunnelModeDraft,
  disabled, cloudflare_quick, cloudflare_named, direct_public_origin, SetupDraftConfig,
  SetupOperatingSystem, mac_os, linux, DependencyStatus, SetupSummary, FinalizeSetupRequest,
}

pub record SetupSystemPort (W : Type 0) : Type 0 where
  pub operating_system : SetupOperatingSystem
  pub resolve_paths : Io W SetupError SetupPaths
  pub collect_dependency_status : Io W SetupError DependencyStatus
  pub generate_secret_hex : ℕ → Io W SetupError String
  pub generate_password : ℕ → Io W SetupError String
  pub render_env_file : SetupDraftConfig → SetupPaths → Io W SetupError String
  pub ensure_app_home_dirs : SetupPaths → Io W SetupError Unit
  pub ensure_whisper_model : SetupPaths → String → Io W SetupError String
  pub write_env_file : String → String → Io W SetupError Unit
  pub path_exists : String → Io W SetupError Bool

abbrev pub default_container_runtime : SetupOperatingSystem → ContainerRuntime
default_container_runtime mac_os = macos_container
default_container_runtime linux = docker

abbrev pub policy : SetupDraftConfig → AccessModeDraft → TunnelModeDraft → SetupDraftConfig
policy draft local_only mode = record draft { local_mcp_enabled = true; tunnel_mode = disabled }
policy draft remote_only disabled = record draft {
  local_mcp_enabled = false;
  tunnel_mode = cloudflare_quick;
}
policy draft remote_only mode = record draft { local_mcp_enabled = false }
policy draft both disabled = record draft {
  local_mcp_enabled = true;
  tunnel_mode = cloudflare_quick;
}
policy draft both mode = record draft { local_mcp_enabled = true }

unfoldable pub apply_access_mode_policy : SetupDraftConfig → SetupDraftConfig
apply_access_mode_policy draft = policy draft draft.access_mode draft.tunnel_mode

abbrev pub access_mode_draft_from_config : AccessMode → AccessModeDraft
access_mode_draft_from_config EnvFile.local = local_only
access_mode_draft_from_config EnvFile.remote = remote_only
access_mode_draft_from_config EnvFile.both = both

unfoldable pub direct_public_origin_hostname_from_config : GatewayConfig → Option String
direct_public_origin_hostname_from_config config =
    if is_some config.tunnel then none else config.hostname_validation.expected_host

abbrev of_tunnel : Option TunnelConfig → Option String → TunnelModeDraft
of_tunnel (some (Hosts.cloudflare_quick port)) direct = cloudflare_quick
of_tunnel (some (Hosts.cloudflare_named name domain file port)) direct =
    cloudflare_named name domain
of_tunnel none (some hostname) = direct_public_origin hostname
of_tunnel none none = disabled

unfoldable pub tunnel_mode_draft_from_config : GatewayConfig → TunnelModeDraft
unfolding direct_public_origin_hostname_from_config
tunnel_mode_draft_from_config config =
    of_tunnel config.tunnel (direct_public_origin_hostname_from_config config)

module _ {W : Type 0} where
  unfoldable pub validate_nonempty : String → String → Io W SetupError Unit
  unfolding trim
  validate_nonempty label value =
      if is_empty (trim value) then throw (invalid (label ⧺ " must not be empty")) else pure tt

  unfoldable pub validate_positive_u64 : String → ℕ → Io W SetupError Unit
  validate_positive_u64 label value =
      if nat_eq value 0 then throw (invalid (label ⧺ " must be greater than 0")) else pure tt

-- The port, and the image repository of `SetupDefaults`.
module _ {W : Type 0} (port : SetupSystemPort W) (default_container_image_repo : String) where
  unfoldable pub prepare : Io W SetupError SetupSummary
  prepare = do
    paths ← port.resolve_paths
    dependencies ← port.collect_dependency_status
    client_secret ← port.generate_secret_hex 32
    local_mcp_bearer_token ← port.generate_secret_hex 32
    pure (record {
      paths = paths;
      dependencies = dependencies;
      draft = record {
        gateway_port = 2763;
        client_id = "brain3-oauth2-client";
        client_secret = client_secret;
        access_token_lifetime_secs = 3600;
        refresh_token_lifetime_secs = 90 * 24 * 60 * 60;
        username = "admin";
        password = "";
        access_mode = both;
        tunnel_mode = cloudflare_quick;
        container_runtime = default_container_runtime port.operating_system;
        vault_path = "";
        container_image_repo = default_container_image_repo;
        container_host_port = 2765;
        container_mcp_port = 2765;
        container_name = "brain3-mcp-vault-tools";
        container_network_isolated = true;
        container_network_name = "brain3-mcp-net";
        local_mcp_enabled = true;
        local_mcp_port = 2764;
        local_mcp_bearer_token = local_mcp_bearer_token;
        pkce_required = true;
        enforce_hostname_check = true;
        direct_public_origin_hostname = none;
        native_audio_transcription_enabled = false;
        whisper_model = "base.en";
        whisper_max_audio_bytes = 50 * 1024 * 1024;
      };
    })

  unfoldable pub validate_vault_path : String → Io W SetupError Unit
  unfolding strip_prefix
  validate_vault_path vault_path =
      let existing = (do
        exists ← port.path_exists vault_path
        if exists then pure tt else throw (invalid ("vault path does not exist: " ⧺ vault_path))) in
      if is_some (strip_prefix "/" vault_path)
      then existing
      else throw (invalid "vault path must be an absolute path")

  abbrev pub with_secret : SetupDraftConfig → Io W SetupError SetupDraftConfig
  with_secret draft =
      let drawn : Io W SetupError SetupDraftConfig = (do
        secret ← port.generate_secret_hex 32
        pure (record draft { client_secret = secret })) in
      if is_empty (trim draft.client_secret) then drawn else pure draft

  abbrev pub with_password : Bool → SetupDraftConfig → Io W SetupError SetupDraftConfig
  with_password true draft = do
    password ← port.generate_password 24
    pure (record draft { password = password })
  with_password false draft = do validate_nonempty "password" draft.password; pure draft

  abbrev pub with_token : SetupDraftConfig → Io W SetupError SetupDraftConfig
  with_token draft =
      let drawn : Io W SetupError SetupDraftConfig = (do
        token ← port.generate_secret_hex 32
        pure (record draft { local_mcp_bearer_token = token })) in
      if draft.local_mcp_enabled && is_empty (trim draft.local_mcp_bearer_token)
      then drawn
      else pure draft

  -- The model is fetched only for a gateway that transcribes.
  abbrev pub fetched : SetupPaths → SetupDraftConfig → Io W SetupError Unit
  fetched paths draft =
      let model : Io W SetupError Unit = (do
        path ← port.ensure_whisper_model paths draft.whisper_model
        pure tt) in
      if draft.native_audio_transcription_enabled then model else pure tt

  -- From the point where the draft is complete.
  abbrev pub written :
      SetupPaths → DependencyStatus → SetupDraftConfig → Io W SetupError SetupSummary
  written paths dependencies draft = do
    env_contents ← port.render_env_file draft paths
    port.ensure_app_home_dirs paths
    fetched paths draft
    port.write_env_file paths.env_file env_contents
    pure (record { paths = paths; draft = draft; dependencies = dependencies })

  -- From the point where the fields of the form are checked.
  unfoldable pub completed :
      FinalizeSetupRequest → SetupPaths → DependencyStatus → Io W SetupError SetupSummary
  unfolding trim apply_access_mode_policy validate_nonempty
  completed request paths dependencies = do
    secret ← with_secret request.draft
    given ← with_password request.generate_password secret
    draft ← with_token (apply_access_mode_policy given)
    written paths dependencies draft

  unfoldable pub finalize : FinalizeSetupRequest → Io W SetupError SetupSummary
  unfolding validate_nonempty validate_positive_u64 validate_vault_path completed
  finalize request = do
    paths ← port.resolve_paths
    dependencies ← port.collect_dependency_status
    validate_nonempty "client ID" request.draft.client_id
    validate_nonempty "username" request.draft.username
    validate_positive_u64 "access token lifetime" request.draft.access_token_lifetime_secs
    validate_positive_u64 "refresh token lifetime" request.draft.refresh_token_lifetime_secs
    validate_vault_path request.draft.vault_path
    completed request paths dependencies
