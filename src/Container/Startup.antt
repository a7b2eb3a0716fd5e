-- ===== src/Container/Startup.antt =====
-- The start and the stop of the containers in crates/platform/src/container/startup.rs.
use brain.Base.{ℕ, String, Option, none, some, if◌then◌else◌}
use brain.Base.Fueled.{Fueled, ◌>>=◌, ◌>>◌, pure, await}
use brain.Base.Io.{Io}
use brain.Base.Io
use brain.Base.Text.{◌⧺◌}
use brain.Container.Ensure.{ensure, default_settings}
use brain.Container.Error.{ContainerError, other}
use brain.Container.Model.{
  ContainerRuntime, docker, macos_container, ContainerStartupConfig, PluginMcpContainerConfig,
  OrphanContainerPolicy,
}
use brain.Container.Orphans.{
  maybe_handle_managed_container_orphans, recreate_existing_managed_plugin_container_if_present,
}
use brain.Container.Port.{ContainerId, ContainerPort, Host}
use brain.Container.Settings.{
  Platform, build_container_config, build_plugin_container_config, mcp_role, plugin_mcp_role_label,
}

pub record StartedPluginMcpContainer : Type 0 where
  pub config : PluginMcpContainerConfig
  pub host_port : ℕ
  pub container_ip : Option String

-- What start-up reaches: the adapter of each runtime, the clock and the network, the system, and the
-- search for a free port of the loopback interface, with the text of its failure.
pub record Environment (W : Type 0) : Type 0 where
  pub container_port_for_runtime : ContainerRuntime → ContainerPort W
  pub host : Host W
  pub platform : Platform
  pub pick_free_loopback_port : Io W String ℕ

abbrev pub given_or_picked : {W : Type 0} → Io W ContainerError ℕ → Option ℕ → Io W ContainerError ℕ
given_or_picked pick (some port) = Io.pure port
given_or_picked pick none = pick

module _ {W : Type 0} (env : Environment W) where
  unfoldable pub ensure_mcp_container :
      ContainerStartupConfig
      → OrphanContainerPolicy
      → String
      → Fueled W ContainerError (Option String)
  ensure_mcp_container startup policy installation_id =
      let port = env.container_port_for_runtime startup.runtime in
      (do
        maybe_handle_managed_container_orphans port env.host startup.runtime mcp_role policy
            installation_id
        started ←
            ensure port env.host default_settings
              (build_container_config env.platform startup installation_id)
        pure started.1)

  abbrev pub no_port : PluginMcpContainerConfig → String → ContainerError
  no_port plugin error =
      other ("failed to pick host port for Plugin MCP Container '" ⧺ plugin.name ⧺ "': " ⧺ error)

  unfoldable pub resolve_plugin_host_port : PluginMcpContainerConfig → Io W ContainerError ℕ
  resolve_plugin_host_port plugin =
      given_or_picked (Io.map_err (no_port plugin) env.pick_free_loopback_port) plugin.host_port

  unfoldable pub ensure_plugin_mcp_container :
      PluginMcpContainerConfig
      → String
      → OrphanContainerPolicy
      → String
      → Fueled W ContainerError StartedPluginMcpContainer
  ensure_plugin_mcp_container plugin public_origin policy installation_id =
      let port = env.container_port_for_runtime plugin.runtime in
      let role = plugin_mcp_role_label plugin.name in
      (do
        host_port ← await (resolve_plugin_host_port plugin)
        recreate_existing_managed_plugin_container_if_present port plugin role installation_id
        maybe_handle_managed_container_orphans port env.host plugin.runtime role policy
            installation_id
        started ← ensure port env.host default_settings (
            build_plugin_container_config env.platform plugin public_origin host_port
              installation_id)
        pure (record { config = plugin; host_port = host_port; container_ip = started.1 }))

  -- macOS containers are removed when they stop; Docker removes them itself.
  abbrev pub removed_after_stop : ContainerRuntime → ContainerId → Io W ContainerError Unit
  removed_after_stop docker id = Io.pure tt
  removed_after_stop macos_container id = (env.container_port_for_runtime macos_container).remove id

  -- The body that `stop_mcp_container` and `stop_plugin_mcp_container` share.
  unfoldable pub stop_container : ContainerRuntime → ContainerId → Io W ContainerError Unit
  stop_container runtime id =
      let port = env.container_port_for_runtime runtime in
      Io.◌>>=◌ (port.exists id) λ there.
        if there
        then Io.◌>>=◌ (port.is_running id) (λ running.
          Io.◌>>◌ (if running then port.stop id else Io.pure tt) (removed_after_stop runtime id))
        else Io.pure tt

  unfoldable pub stop_mcp_container : ContainerStartupConfig → Io W ContainerError Unit
  unfolding stop_container
  stop_mcp_container startup = stop_container startup.runtime startup.container_name

  unfoldable pub stop_plugin_mcp_container : PluginMcpContainerConfig → Io W ContainerError Unit
  unfolding stop_container
  stop_plugin_mcp_container plugin = stop_container plugin.runtime plugin.name
