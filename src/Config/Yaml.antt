-- ===== src/Config/Yaml.antt =====
-- The validation of brain3.yaml in crates/platform/src/config/brain3_yaml.rs: the entries in their
-- order, with the set of the names that have been seen.
pub mod Names
pub mod Mounts
use brain.Base.{
  String, Option, none, some, Bool, true, false, List, [], ◌∷◌, ◌==◌, any, if◌then◌else◌,
}
use brain.Base.Io.{Io, ◌>>=◌, ◌>>◌, lift}
use brain.Base.Result.{Result, ok, err}
use brain.Base.Text.{◌⧺◌}
use brain.Config.Entry.{valid_name, valid_fields}
use brain.Config.Fields.{RawPluginMcpContainerConfig, System}
use brain.Container.Model.{PluginMcpContainerConfig}

-- `seen_names.insert(name.clone())`, refused for a name that is there: the set is the list of its
-- members.
unfoldable pub insert_name : String → Io (List String) String Unit
insert_name name seen =
    if any (λ s. s == name) seen
    then (err ("duplicate name '" ⧺ name ⧺ "'"), seen)
    else (ok tt, name ∷ seen)

-- The valid configurations are kept; an invalid entry is only logged.
abbrev pub kept :
    Result String PluginMcpContainerConfig
    → List PluginMcpContainerConfig
    → List PluginMcpContainerConfig
kept (ok config) configs = config ∷ configs
kept (err reason) configs = configs

module _ (system : System) where
  unfoldable pub validate_plugin_mcp_container :
      RawPluginMcpContainerConfig → Io (List String) String PluginMcpContainerConfig
  unfolding insert_name
  validate_plugin_mcp_container entry = do
    name ← lift (valid_name entry.name)
    insert_name name
    lift (valid_fields system entry name)

  -- The loop, from the names that have been seen.
  unfoldable pub validate_entries :
      List RawPluginMcpContainerConfig → List String → List PluginMcpContainerConfig
  unfolding validate_plugin_mcp_container
  validate_entries [] seen = []
  validate_entries (entry ∷ entries) seen =
      let r = validate_plugin_mcp_container entry seen in kept r.0 (validate_entries entries r.1)

  unfoldable pub validate_plugin_mcp_containers :
      List RawPluginMcpContainerConfig → List PluginMcpContainerConfig
  unfolding validate_entries
  validate_plugin_mcp_containers entries = validate_entries entries []

  abbrev pub parsed :
      Result String (List RawPluginMcpContainerConfig) → List PluginMcpContainerConfig
  parsed (ok entries) = validate_plugin_mcp_containers entries
  parsed (err error) = []

  -- A file that is not there, cannot be read or cannot be parsed has no containers.
  abbrev pub read : Result String (Option String) → List PluginMcpContainerConfig
  read (ok (some contents)) = parsed (system.from_str contents)
  read (ok none) = []
  read (err error) = []

  unfoldable pub load_plugin_mcp_containers_config : String → List PluginMcpContainerConfig
  load_plugin_mcp_containers_config path = read (system.read_to_string path)
