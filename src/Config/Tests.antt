-- ===== src/Config/Tests.antt =====
-- brain3.yaml at concrete inputs.
use brain.Base.{◌≡◌, refl, none, some, true, false, List, [], ◌∷◌, map}
use brain.Base.Result.{ok}
use brain.Base.Whitespace.{trim}
use brain.Config.Entry.{valid_name, valid_fields}
use brain.Config.Fields.{RawPluginMcpContainerConfig, System, text, unsigned}
use brain.Config.Yaml.{validate_plugin_mcp_containers, load_plugin_mcp_containers_config}
use brain.Config.Yaml.Mounts.{mount_of, AreUsable, load_plugin_mcp_containers_config-AreUsable}
use brain.Config.Yaml.Names.{accepted, validate-accepted}

-- Every path is a directory and a file, and the file has two entries of one name.
abbrev notes : RawPluginMcpContainerConfig
notes = record {
  name = some " my_notes ";
  platform = some "docker";
  image = some "notes";
  tag = some "2";
  port = some 8000;
  host_port = none;
  host_directory = some "/home/me/notes";
  container_directory = none;
  network = some "brain3-mcp-net";
  network_isolation = none;
  env = some (("LEVEL", text "debug") ∷ ("SIZE", unsigned 12) ∷ []);
  auth = some (record {
    auth_type = some "bearer_token";
    secret_file = some "/home/me/secret";
    secret_mount_path = none;
  });
}

abbrev untagged : RawPluginMcpContainerConfig
untagged = record notes { tag = none }

abbrev system : List RawPluginMcpContainerConfig → System
system entries = record {
  metadata = λ path. ok (record { is_dir = true; is_file = true });
  open_file = λ path. ok tt;
  read_to_string = λ path. ok (some "");
  from_str = λ contents. ok entries;
  is_macos = false;
}

accepts_valid_entry :
    map mount_of (load_plugin_mcp_containers_config (system (notes ∷ [])) "/home/me/brain3.yaml")
    ≡ "my-notes" ∷ []
unfolding load_plugin_mcp_containers_config validate_plugin_mcp_containers valid_name valid_fields
    trim
accepts_valid_entry = refl

-- The first of two entries is not valid, and yet the second is refused for its name.
name_is_taken_by_invalid_entry :
    validate_plugin_mcp_containers (system []) (untagged ∷ notes ∷ []) ≡ []
unfolding validate_plugin_mcp_containers valid_name valid_fields trim
name_is_taken_by_invalid_entry = refl

validate-accepted_example :
    validate_plugin_mcp_containers (system []) (untagged ∷ notes ∷ [])
    ≡ accepted (system []) [] (untagged ∷ notes ∷ [])
validate-accepted_example = validate-accepted (system []) (untagged ∷ notes ∷ [])

load_plugin_mcp_containers_config-AreUsable_example :
    AreUsable
      (system (notes ∷ []))
      (load_plugin_mcp_containers_config (system (notes ∷ [])) "/home/me/brain3.yaml")
load_plugin_mcp_containers_config-AreUsable_example =
    load_plugin_mcp_containers_config-AreUsable (system (notes ∷ [])) "/home/me/brain3.yaml"
