-- ===== src/Setup/Model.antt =====
-- The data of the set-up wizard in crates/core/src/domain/setup.rs and domain/errors.rs. Ports and
-- lifetimes are numbers below 2 ^ 16 and 2 ^ 64; paths are texts.
use brain.Base.{ℕ, String, Option, Bool}
use brain.Container.Model.{ContainerRuntime}

pub data SetupError : Type 0 where
  invalid io spawn_failed unsupported : String → SetupError
  command_failed : (command : String) (code : Option ℕ) (stderr : String) → SetupError

pub record SetupPaths : Type 0 where
  pub app_home : String
  pub env_file : String
  pub cloudflared_dir : String

pub data AccessModeDraft : Type 0 where
  local_only remote_only both : AccessModeDraft

pub data TunnelModeDraft : Type 0 where
  disabled cloudflare_quick : TunnelModeDraft
  cloudflare_named : (tunnel_name domain : String) → TunnelModeDraft
  direct_public_origin : (hostname : String) → TunnelModeDraft

pub record SetupDraftConfig : Type 0 where
  pub gateway_port : ℕ
  pub client_id : String
  pub client_secret : String
  pub access_token_lifetime_secs : ℕ
  pub refresh_token_lifetime_secs : ℕ
  pub username : String
  pub password : String
  pub access_mode : AccessModeDraft
  pub tunnel_mode : TunnelModeDraft
  pub container_runtime : ContainerRuntime
  pub vault_path : String
  pub container_image_repo : String
  pub container_host_port : ℕ
  pub container_mcp_port : ℕ
  pub container_name : String
  pub container_network_isolated : Bool
  pub container_network_name : String
  pub local_mcp_enabled : Bool
  pub local_mcp_port : ℕ
  pub local_mcp_bearer_token : String
  pub pkce_required : Bool
  pub enforce_hostname_check : Bool
  pub direct_public_origin_hostname : Option String
  pub native_audio_transcription_enabled : Bool
  pub whisper_model : String
  pub whisper_max_audio_bytes : ℕ

pub data SetupOperatingSystem : Type 0 where
  mac_os linux : SetupOperatingSystem

pub data PackageManager : Type 0 where
  homebrew apt : PackageManager

pub data InstallAction : Type 0 where
  install_cloudflared install_docker install_mac_os_container : InstallAction

pub data DependencyAvailability : Type 0 where
  installed manual_install_required : DependencyAvailability
  install_available : InstallAction → DependencyAvailability

pub record DependencyStatus : Type 0 where
  pub operating_system : SetupOperatingSystem
  pub package_manager : Option PackageManager
  pub cloudflared : DependencyAvailability
  pub preferred_container_runtime : DependencyAvailability
  pub docker_installed : Bool
  pub macos_container_installed : Option Bool
  pub homebrew_installed : Option Bool

-- `SetupSummary`, and `SetupPreparation`, which has the same fields.
pub record SetupSummary : Type 0 where
  pub paths : SetupPaths
  pub draft : SetupDraftConfig
  pub dependencies : DependencyStatus

pub record FinalizeSetupRequest : Type 0 where
  pub draft : SetupDraftConfig
  pub generate_password : Bool

pub record ConnectionCard : Type 0 where
  pub server_url : String
  pub client_id : String
  pub client_secret : String
  pub username : String
  pub password : String
  pub log_file : String
