-- ===== src/Config/Entry.antt =====
-- An entry of brain3.yaml: the checks of `validate_plugin_mcp_container` in
-- crates/platform/src/config/brain3_yaml.rs, but for the set of names.
pub mod Checked
use brain.Base.{String, Option, true, if◌then◌else◌}
use brain.Base.Optional.{get_or}
use brain.Base.Result.{Result, ok, ◌>>=◌, ◌>>◌, ok_or}
use brain.Base.Text.{◌⧺◌}
use brain.Config.Fields.{
  RawPluginMcpContainerConfig, System, required_string, validate_name, validate_network_name,
  parse_env, parse_runtime, validate_plugin_network_isolation_support, validate_directory,
  parse_auth,
}
use brain.Container.Model.{PluginMcpContainerConfig}

-- `required_string(entry.name, "name")?` and `validate_name(&name)?`
unfoldable pub valid_name : Option String → Result String String
unfolding required_string validate_name
valid_name field = do name ← required_string field "name"; validate_name name; ok name

module _ (system : System) where
  -- The fields after the name.
  unfoldable pub valid_fields :
      RawPluginMcpContainerConfig → String → Result String PluginMcpContainerConfig
  unfolding required_string parse_runtime validate_plugin_network_isolation_support
      validate_directory validate_network_name parse_env parse_auth
  valid_fields entry name =
      let network_isolation = get_or entry.network_isolation true in
      (do
        platform ← required_string entry.platform "platform"
        runtime ← parse_runtime platform
        validate_plugin_network_isolation_support system runtime network_isolation
        image ← required_string entry.image "image"
        tag ← required_string entry.tag "tag"
        container_port ← ok_or "missing port" entry.port
        host_directory ← ok_or "missing host_directory" entry.host_directory
        validate_directory system host_directory "host_directory"
        network_name ← required_string entry.network "network"
        validate_network_name network_name
        env ← parse_env entry.env
        auth ← parse_auth system entry.auth
        ok (record {
          name = name;
          runtime = runtime;
          image = image ⧺ ":" ⧺ tag;
          container_port = container_port;
          host_port = entry.host_port;
          host_directory = host_directory;
          container_directory = get_or entry.container_directory "/data";
          network_name = network_name;
          network_isolation = network_isolation;
          env = env;
          auth = auth;
        }))
