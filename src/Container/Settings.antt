-- ===== src/Container/Settings.antt =====
-- The labels and the settings of containers in crates/platform/src/container/startup.rs.
use Prim.Native.Char.{code}
use brain.Base.{
  ℕ, String, Option, none, some, Bool, true, false, not, List, [], ◌∷◌, ◌++◌, ◌==◌, keep, nat_eq,
  if◌then◌else◌,
}
use brain.Base.Optional.{is_some}
use brain.Base.Text.{◌⧺◌, trim_end_matches}
use brain.Container.Model.{
  ContainerRuntime, docker, macos_container, ContainerNetworkIsolationStrategy,
  discover_container_ip, publish_to_loopback, PluginMcpContainerAuth, no_auth, bearer_token,
  PluginMcpContainerConfig, ContainerLabel, ManagedContainerScope, BindMount, ContainerConfig,
  ContainerStartupConfig,
}
use brain.Domain.Decimal.{decimal}

abbrev pub mcp_role : String
mcp_role = "mcp"

abbrev pub managed_container_scope : String → String → ManagedContainerScope
managed_container_scope installation_id role = record {
  installation_id = installation_id;
  role = role;
}

unfoldable pub managed_container_labels_for_role : String → String → List ContainerLabel
managed_container_labels_for_role installation_id role =
    record { key = "io.brain3.managed"; value = "true" }
    ∷ record { key = "io.brain3.role"; value = role }
    ∷ record { key = "io.brain3.installation_id"; value = installation_id }
    ∷ []

abbrev pub managed_container_labels : String → List ContainerLabel
unfolding managed_container_labels_for_role
managed_container_labels installation_id =
    managed_container_labels_for_role installation_id mcp_role

unfoldable pub plugin_mcp_role_label : String → String
plugin_mcp_role_label name = "brain3-mcp-plugin:" ⧺ name

-- `name.replace('_', "-")`
unfoldable pub plugin_mcp_container_asset_mount : String → String
plugin_mcp_container_asset_mount String.[] = ""
plugin_mcp_container_asset_mount (String.◌∷◌ c s) =
    let rest = plugin_mcp_container_asset_mount s in
    if nat_eq (code c) b'_' then String.◌∷◌ "-" rest else String.◌∷◌ c rest

abbrev dev_mount_target : String
dev_mount_target = "/workspace/brain3-mcp-vault-tools"

-- What the system is: the user and the group of the process, on Unix, and whether it is macOS.
pub record Platform : Type 0 where
  pub ids : Option (ℕ × ℕ)
  pub is_macos : Bool

abbrev user_of : Option (ℕ × ℕ) → Option String
user_of none = none
user_of (some ids) = some (decimal ids.0 ⧺ ":" ⧺ decimal ids.1)

abbrev removed_on_exit : ContainerRuntime → Bool
removed_on_exit docker = true
removed_on_exit macos_container = false

-- The variables that stand only where an option is set.
abbrev when : Bool → String × String → List (String × String)
when true variable = variable ∷ []
when false variable = []

abbrev log_level_env : Option String → List (String × String)
log_level_env none = []
log_level_env (some level) = ("B3_VAULT_MCP_LOG_LEVEL", level) ∷ []

-- The four places at which a mounted source directory changes the configuration.
abbrev dev_env : Option String → List (String × String)
dev_env none = []
dev_env (some source) = ("PYTHONPATH", dev_mount_target ⧺ "/src") ∷ []

abbrev dev_mounts : Option String → List BindMount
dev_mounts none = []
dev_mounts (some source) =
    record { host_path = source; container_path = dev_mount_target; readonly = true } ∷ []

abbrev dev_workdir : Option String → Option String
dev_workdir none = none
dev_workdir (some source) = some dev_mount_target

abbrev dev_command : Option String → List String
dev_command none = []
dev_command (some source) =
    "/opt/brain3-mcp-vault-tools/.venv/bin/python" ∷ "-m" ∷ "obsidian_mcp_server.server" ∷ []

unfoldable pub build_container_config : Platform → ContainerStartupConfig → String → ContainerConfig
unfolding managed_container_labels_for_role
build_container_config platform startup installation_id = record {
  image = startup.image;
  name = startup.container_name;
  isolation_strategy = startup.isolation_strategy;
  network_name = startup.network_name;
  port_mappings =
      record {
        host_address = "127.0.0.1";
        host_port = startup.host_port;
        container_port = startup.container_port;
      }
      ∷ [];
  env_vars =
      (("B3_VAULT_MCP_HOST", "0.0.0.0")
        ∷ ("B3_VAULT_MCP_PORT", decimal startup.container_port)
        ∷ ("B3_VAULT_PATH", "/vault")
        ∷ ("B3_UPSTREAM_SHARED_SECRET", startup.upstream_secret)
        ∷ [])
      ++ when (is_some startup.isolation_strategy) ("B3_VAULT_MCP_ALLOW_SELF_IP_HOSTS", "true")
      ++ log_level_env startup.mcp_log_level
      ++ when startup.enable_sync_reindex_tool ("BRAIN3_ENABLE_SYNC_REINDEX_TOOL", "true")
      ++ dev_env startup.dev_mount_source;
  labels = managed_container_labels installation_id;
  bind_mounts =
      record { host_path = startup.vault_path; container_path = "/vault"; readonly = false }
      ∷ dev_mounts startup.dev_mount_source;
  user = user_of platform.ids;
  detach = true;
  remove_on_exit = removed_on_exit startup.runtime;
  workdir = dev_workdir startup.dev_mount_source;
  command = dev_command startup.dev_mount_source;
}

unfoldable pub plugin_isolation_strategy :
    Platform → ContainerRuntime → ContainerNetworkIsolationStrategy
plugin_isolation_strategy platform docker =
    if platform.is_macos then publish_to_loopback else discover_container_ip
plugin_isolation_strategy platform macos_container = publish_to_loopback

abbrev secret_mounts : PluginMcpContainerAuth → List BindMount
secret_mounts no_auth = []
secret_mounts (bearer_token secret_file secret_mount_path) =
    record { host_path = secret_file; container_path = secret_mount_path; readonly = true } ∷ []

unfoldable pub public_base_url : String → String → String
unfolding plugin_mcp_container_asset_mount
public_base_url public_origin name =
    trim_end_matches b'/' public_origin ⧺ "/" ⧺ plugin_mcp_container_asset_mount name

-- The variables of the plugin's own configuration, without one that start-up sets.
unfoldable pub plugin_env : PluginMcpContainerConfig → String → List (String × String)
unfolding public_base_url
plugin_env plugin public_origin =
    keep (λ (v : String × String). not (v.0 == "PUBLIC_BASE_URL")) plugin.env
    ++ ("PUBLIC_BASE_URL", public_base_url public_origin plugin.name) ∷ []

unfoldable pub build_plugin_container_config :
    Platform → PluginMcpContainerConfig → String → ℕ → String → ContainerConfig
unfolding plugin_env managed_container_labels_for_role plugin_mcp_role_label
    plugin_isolation_strategy
build_plugin_container_config platform plugin public_origin host_port installation_id = record {
  image = plugin.image;
  name = plugin.name;
  isolation_strategy =
      if plugin.network_isolation
      then some (plugin_isolation_strategy platform plugin.runtime)
      else none;
  network_name = plugin.network_name;
  port_mappings =
      record {
        host_address = "127.0.0.1";
        host_port = host_port;
        container_port = plugin.container_port;
      }
      ∷ [];
  env_vars = plugin_env plugin public_origin;
  labels = managed_container_labels_for_role installation_id (plugin_mcp_role_label plugin.name);
  bind_mounts =
      record {
        host_path = plugin.host_directory;
        container_path = plugin.container_directory;
        readonly = false;
      }
      ∷ secret_mounts plugin.auth;
  user = user_of platform.ids;
  detach = true;
  remove_on_exit = removed_on_exit plugin.runtime;
  workdir = none;
  command = [];
}
