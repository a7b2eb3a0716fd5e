-- ===== src/Setup/Existing.antt =====
-- The draft of a gateway that has been set up before, and the card of a summary, in
-- crates/core/src/application/first_run_setup.rs.
use brain.Base.{String, Option, none, some, if◌then◌else◌}
use brain.Base.Io.{Io, ◌>>=◌, pure}
use brain.Base.Optional
use brain.Base.Optional.{get_or, is_some, and_then}
use brain.Base.Parse.{first_part, rsplit_once}
use brain.Base.Whitespace.{trim, contains}
use brain.Config.EnvFile.{LocalMcpConfig}
use brain.Config.EnvFile.Load.{GatewayConfig}
use brain.Container.Model.{ContainerStartupConfig}
use brain.Setup.Model.{SetupError, SetupDraftConfig, SetupSummary, ConnectionCard}
use brain.Setup.Wizard.{
  SetupSystemPort, default_container_runtime, access_mode_draft_from_config,
  tunnel_mode_draft_from_config, direct_public_origin_hostname_from_config,
}

-- A colon before a slash is that of a port.
unfoldable pub image_repo_from_reference : String → String
unfolding trim first_part contains
image_repo_from_reference image =
    let without_digest = first_part b'@' (trim image) in
    elim (rsplit_once b':' without_digest) [
      | none ↦ without_digest
      | some parts ↦ if contains "/" parts.1 then without_digest else parts.0
    ]

unfoldable pub build_connection_card : String → String → SetupSummary → ConnectionCard
build_connection_card server_url log_file summary = record {
  server_url = server_url;
  client_id = summary.draft.client_id;
  client_secret = summary.draft.client_secret;
  username = summary.draft.username;
  password = summary.draft.password;
  log_file = log_file;
}

abbrev of_container :
    {A : Type 0} → Option ContainerStartupConfig → (ContainerStartupConfig → A) → A → A
of_container container field default = get_or (Optional.map field container) default

module _ {W : Type 0} (port : SetupSystemPort W) (default_container_image_repo : String) where
  unfoldable pub draft_from_existing_config : GatewayConfig → SetupDraftConfig
  unfolding image_repo_from_reference tunnel_mode_draft_from_config
      direct_public_origin_hostname_from_config
  draft_from_existing_config config =
      let container = config.container in
      let local_mcp = config.local_mcp in
      record {
        gateway_port = config.port;
        client_id = config.oauth.client_id;
        client_secret = config.oauth.client_secret;
        access_token_lifetime_secs = config.oauth.access_token_lifetime_secs;
        refresh_token_lifetime_secs = config.oauth.refresh_token_lifetime_secs;
        username = config.oauth.username;
        password = config.oauth.password;
        access_mode = access_mode_draft_from_config config.access_mode;
        tunnel_mode = tunnel_mode_draft_from_config config;
        container_runtime =
            of_container container (λ c. c.runtime)
              (default_container_runtime port.operating_system);
        vault_path = of_container container (λ c. c.vault_path) "";
        container_image_repo =
            of_container container (λ c. image_repo_from_reference c.image)
              default_container_image_repo;
        container_host_port = of_container container (λ c. c.host_port) 2765;
        container_mcp_port = of_container container (λ c. c.container_port) 2765;
        container_name = of_container container (λ c. c.container_name) "brain3-mcp-vault-tools";
        container_network_isolated = is_some (and_then container (λ c. c.isolation_strategy));
        container_network_name = of_container container (λ c. c.network_name) "brain3-mcp-net";
        local_mcp_enabled = is_some local_mcp;
        local_mcp_port = get_or (Optional.map (λ (l : LocalMcpConfig). l.port) local_mcp) 2764;
        local_mcp_bearer_token =
            get_or (Optional.map (λ (l : LocalMcpConfig). l.bearer_token) local_mcp) "";
        pkce_required = config.oauth.pkce_required;
        enforce_hostname_check = config.hostname_validation.enforce;
        direct_public_origin_hostname = direct_public_origin_hostname_from_config config;
        native_audio_transcription_enabled = config.native_audio_transcription.enabled;
        whisper_model = config.native_audio_transcription.model;
        whisper_max_audio_bytes = config.native_audio_transcription.max_audio_bytes;
      }

  unfoldable pub prepare_from_existing_config : GatewayConfig → Io W SetupError SetupSummary
  unfolding draft_from_existing_config
  prepare_from_existing_config config = do
    paths ← port.resolve_paths
    dependencies ← port.collect_dependency_status
    pure (record {
      paths = paths;
      draft = draft_from_existing_config config;
      dependencies = dependencies;
    })
