-- ===== src/Container/Model.antt =====
-- The container types of crates/core/src/domain/model.rs, and the start-up policy of
-- domain/setup.rs. Ports are numbers below 2 ^ 16; paths are texts.
use brain.Base.{ℕ, String, Option, Bool, true, false, List, if◌then◌else◌}

pub data ContainerRuntime : Type 0 where
  docker macos_container : ContainerRuntime

pub data ContainerNetworkIsolationStrategy : Type 0 where
  discover_container_ip publish_to_loopback : ContainerNetworkIsolationStrategy

pub data PluginMcpContainerAuth : Type 0 where
  no_auth : PluginMcpContainerAuth
  bearer_token : (secret_file secret_mount_path : String) → PluginMcpContainerAuth

pub record PluginMcpContainerConfig : Type 0 where
  pub name : String
  pub runtime : ContainerRuntime
  pub image : String
  pub container_port : ℕ
  pub host_port : Option ℕ
  pub host_directory : String
  pub container_directory : String
  pub network_name : String
  pub network_isolation : Bool
  pub env : List (String × String)
  pub auth : PluginMcpContainerAuth

pub record ContainerLabel : Type 0 where
  pub key : String
  pub value : String

pub record ManagedContainerScope : Type 0 where
  pub installation_id : String
  pub role : String

pub record ManagedContainerInfo : Type 0 where
  pub name : String
  pub running : Bool
  pub state : String
  pub labels : List ContainerLabel

pub record PortMapping : Type 0 where
  pub host_address : String
  pub host_port : ℕ
  pub container_port : ℕ

pub record BindMount : Type 0 where
  pub host_path : String
  pub container_path : String
  pub readonly : Bool

pub record ContainerConfig : Type 0 where
  pub image : String
  pub name : String
  pub isolation_strategy : Option ContainerNetworkIsolationStrategy
  pub network_name : String
  pub port_mappings : List PortMapping
  pub env_vars : List (String × String)
  pub labels : List ContainerLabel
  pub bind_mounts : List BindMount
  pub user : Option String
  pub detach : Bool
  pub remove_on_exit : Bool
  pub workdir : Option String
  pub command : List String

pub record ContainerStartupConfig : Type 0 where
  pub runtime : ContainerRuntime
  pub image : String
  pub container_name : String
  pub network_name : String
  pub vault_path : String
  pub upstream_secret : String
  pub host_port : ℕ
  pub container_port : ℕ
  pub isolation_strategy : Option ContainerNetworkIsolationStrategy
  pub dev_mount_source : Option String
  pub mcp_log_level : Option String
  pub enable_sync_reindex_tool : Bool

pub data OrphanContainerPolicy : Type 0 where
  skip_during_setup fail_closed garbage_collect_explicitly : OrphanContainerPolicy

-- `RuntimeStartupPolicy`, whose one field is the policy for orphans.
abbrev pub configured : Bool → OrphanContainerPolicy
configured gc_containers = if gc_containers then garbage_collect_explicitly else fail_closed

unfoldable pub checks_for_orphans : OrphanContainerPolicy → Bool
checks_for_orphans skip_during_setup = false
checks_for_orphans fail_closed = true
checks_for_orphans garbage_collect_explicitly = true

unfoldable pub gc_containers_enabled : OrphanContainerPolicy → Bool
gc_containers_enabled garbage_collect_explicitly = true
gc_containers_enabled fail_closed = false
gc_containers_enabled skip_during_setup = false
