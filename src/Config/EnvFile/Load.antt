-- ===== src/Config/EnvFile/Load.antt =====
-- `EnvFileConfigAdapter::load` in crates/platform/src/config/env_file.rs, after the environment file
-- has been read.
use brain.Base.{ℕ, String, Option, none, some, List, [], ◌∷◌, true}
use brain.Base.Result.{Result, ok, err, ◌>>=◌}
use brain.Base.Text.{◌⧺◌}
use brain.Base.Whitespace.{join}
use brain.Config.EnvFile.{
  Process, ConfigError, missing, AccessMode, LocalMcpConfig, NativeAudioTranscriptionConfig,
  env_var_or, port_of, lifetime, load_access_mode, env_bool, resolve_token_db_path,
  load_upstream_shared_secret, load_local_mcp_config, load_native_audio_transcription_config,
  require_nonempty,
}
use brain.Config.EnvFile.Hosts.{TunnelConfig, resolve_expected_host, load_tunnel_config}
use brain.Config.EnvFile.Startup.{load_container_startup_config}
use brain.Container.Model.{ContainerStartupConfig}
use brain.Domain.Decimal.{decimal}
use brain.Domain.Host.{HostnameValidationConfig}
use brain.Http.OAuth.Params.{OAuthConfig}

pub record McpReverseProxyConfig : Type 0 where
  pub mcp_upstream_url : String
  pub upstream_secret : String

pub record GatewayConfig : Type 0 where
  pub port : ℕ
  pub host : String
  pub token_db_path : String
  pub oauth : OAuthConfig
  pub mcp_reverse_proxy : McpReverseProxyConfig
  pub hostname_validation : HostnameValidationConfig
  pub access_mode : AccessMode
  pub local_mcp : Option LocalMcpConfig
  pub container : Option ContainerStartupConfig
  pub tunnel : Option TunnelConfig
  pub native_audio_transcription : NativeAudioTranscriptionConfig

pub record Credentials : Type 0 where
  pub client_secret : String
  pub username : String
  pub password : String

unfoldable pub default_upstream_url : Option ContainerStartupConfig → String
unfolding decimal
default_upstream_url none = "http://127.0.0.1:2765"
default_upstream_url (some c) = "http://127.0.0.1:" ⧺ decimal c.host_port

abbrev pub unless_missing : List String → Credentials → Result ConfigError Credentials
unless_missing [] credentials = ok credentials
unless_missing (name ∷ names) credentials =
    err (missing ("required env vars not set: " ⧺ join ", " (name ∷ names)))

module _ (process : Process) where
  -- All three are read before a missing one is reported.
  unfoldable pub credentials : Result ConfigError Credentials
  unfolding require_nonempty
  credentials =
      let client_secret = require_nonempty process "B3_OAUTH2_GATEWAY_CLIENT_SECRET" [] in
      let username = require_nonempty process "B3_USERNAME" client_secret.1 in
      let password = require_nonempty process "B3_PASSWORD" username.1 in
      unless_missing password.1
        (record { client_secret = client_secret.0; username = username.0; password = password.0 })

  unfoldable pub load : Option String → Result ConfigError GatewayConfig
  unfolding env_var_or port_of lifetime load_access_mode resolve_expected_host env_bool
      resolve_token_db_path load_upstream_shared_secret load_local_mcp_config
      load_container_startup_config load_native_audio_transcription_config default_upstream_url
      credentials load_tunnel_config
  load token_db_home_override =
      let upstream_secret = load_upstream_shared_secret process in
      (do
        port ← port_of process "B3_OAUTH2_GATEWAY_PORT" "2763"
        access_token_lifetime_secs ← lifetime process "B3_OAUTH2_ACCESS_TOKEN_LIFETIME_SECS" "3600"
        refresh_token_lifetime_secs ←
            lifetime process "B3_OAUTH2_REFRESH_TOKEN_LIFETIME_SECS" "7776000"
        access_mode ← load_access_mode process
        expected_host ← resolve_expected_host process
        token_db_path ← resolve_token_db_path process token_db_home_override
        local_mcp ← load_local_mcp_config process
        container ← load_container_startup_config process upstream_secret
        native_audio_transcription ←
            load_native_audio_transcription_config process token_db_home_override
        given ← credentials
        tunnel ← load_tunnel_config process port
        ok (record {
          port = port;
          host = "127.0.0.1";
          token_db_path = token_db_path;
          oauth = record {
            client_id = env_var_or process "B3_OAUTH2_GATEWAY_CLIENT_ID" "brain3-oauth2-client";
            client_secret = given.client_secret;
            access_token_lifetime_secs = access_token_lifetime_secs;
            refresh_token_lifetime_secs = refresh_token_lifetime_secs;
            pkce_required = env_bool process "B3_OAUTH2_PKCE_REQUIRED" true;
            username = given.username;
            password = given.password;
          };
          mcp_reverse_proxy = record {
            mcp_upstream_url =
                env_var_or process "B3_OAUTH2_GATEWAY_MCP_UPSTREAM_URL"
                  (default_upstream_url container);
            upstream_secret = upstream_secret;
          };
          hostname_validation = record {
            expected_host = expected_host;
            enforce = env_bool process "B3_OAUTH2_GATEWAY_ENFORCE_HOSTNAME_CHECK" true;
          };
          access_mode = access_mode;
          local_mcp = local_mcp;
          container = container;
          tunnel = tunnel;
          native_audio_transcription = native_audio_transcription;
        }))
