-- ===== src/Config/Fields.antt =====
-- The fields of an entry of brain3.yaml, and their checks, in
-- crates/platform/src/config/brain3_yaml.rs. An error is its text.
use Prim.Native.Char.{code}
use brain.Base.{
  ℕ, ◌+◌, String, Option, none, some, Bool, true, false, not, ◌&&◌, ◌||◌, List, [], ◌∷◌, ◌==◌, leb,
  nat_eq, map, if◌then◌else◌,
}
use brain.Base.Optional.{get_or}
use brain.Base.Optional
use brain.Base.Result
use brain.Base.Result.{Result, ok, err}
use brain.Base.Text.{◌⧺◌}
use brain.Base.Text
use brain.Base.Whitespace.{trim}
use brain.Container.Model.{
  ContainerRuntime, docker, macos_container, PluginMcpContainerAuth, no_auth, bearer_token,
}
use brain.Container.Settings.{plugin_mcp_container_asset_mount}
use brain.Domain.Decimal.{decimal}

-- A scalar of the YAML crate; `negative n` is `-n - 1`, and a float stands with the text that
-- `to_string` makes of it.
pub data Scalar : Type 0 where
  text float : String → Scalar
  boolean : Bool → Scalar
  unsigned negative : ℕ → Scalar
  unit : Scalar

-- `RawEnvValueVisitor`
unfoldable pub raw_env_value : Scalar → String
raw_env_value (text s) = s
raw_env_value (float s) = s
raw_env_value (boolean b) = if b then "true" else "false"
raw_env_value (unsigned n) = decimal n
raw_env_value (negative n) = "-" ⧺ decimal (n + 1)
raw_env_value unit = ""

pub record RawPluginMcpContainerAuth : Type 0 where
  pub auth_type : Option String
  pub secret_file : Option String
  pub secret_mount_path : Option String

-- The map of the variables is the list of its entries in the order of their keys.
pub record RawPluginMcpContainerConfig : Type 0 where
  pub name : Option String
  pub platform : Option String
  pub image : Option String
  pub tag : Option String
  pub port : Option ℕ
  pub host_port : Option ℕ
  pub host_directory : Option String
  pub container_directory : Option String
  pub network : Option String
  pub network_isolation : Option Bool
  pub env : Option (List (String × Scalar))
  pub auth : Option RawPluginMcpContainerAuth

pub record Metadata : Type 0 where
  pub is_dir : Bool
  pub is_file : Bool

-- `std::fs` and `std::env` as the validation meets them, with the texts of their errors, and the YAML
-- crate. A file that is not there is read as `ok none`.
pub record System : Type 0 where
  pub metadata : String → Result String Metadata
  pub open_file : String → Result String Unit
  pub read_to_string : String → Result String (Option String)
  pub from_str : String → Result String (List RawPluginMcpContainerConfig)
  pub is_macos : Bool

-- `chars().all(…)`, for tests of ASCII characters `bytes().all(…)` too.
abbrev pub all_chars : (ℕ → Bool) → String → Bool
all_chars p String.[] = true
all_chars p (String.◌∷◌ c s) = p (code c) && all_chars p s

abbrev pub is_digit : ℕ → Bool
is_digit c = leb b'0' c && leb c b'9'

abbrev pub is_lower : ℕ → Bool
is_lower c = leb b'a' c && leb c b'z'

abbrev pub is_alphabetic : ℕ → Bool
is_alphabetic c = is_lower c || (leb b'A' c && leb c b'Z')

abbrev pub is_alphanumeric : ℕ → Bool
is_alphanumeric c = is_alphabetic c || is_digit c

-- A first character that satisfies one test, and others that satisfy another.
abbrev pub first_and_rest : (ℕ → Bool) → (ℕ → Bool) → String → Bool
first_and_rest first rest String.[] = false
first_and_rest first rest (String.◌∷◌ c s) = first (code c) && all_chars rest s

abbrev non_empty : Option String → Option String
non_empty none = none
non_empty (some s) = if Text.is_empty s then none else some s

unfoldable pub required_string : Option String → String → Result String String
required_string value field =
    Result.ok_or ("missing " ⧺ field) (non_empty (Optional.map trim value))

abbrev pub is_name_char : ℕ → Bool
is_name_char c = is_lower c || is_digit c || nat_eq c b'_'

abbrev pub is_reserved : String → Bool
is_reserved mount = mount == "health" || mount == "mcp" || mount == "oauth"

unfoldable pub validate_name : String → Result String Unit
unfolding plugin_mcp_container_asset_mount
validate_name name =
    let mount = plugin_mcp_container_asset_mount name in
    if Text.is_empty name || not (all_chars is_name_char name)
    then err "name must match [a-z0-9_]+"
    else (if is_reserved mount
        then err ("name '" ⧺ name ⧺ "' maps to reserved gateway mount '" ⧺ mount ⧺ "'")
        else ok tt)

abbrev pub is_network_char : ℕ → Bool
is_network_char c = is_alphanumeric c || nat_eq c b'_' || nat_eq c b'.' || nat_eq c b'-'

unfoldable pub validate_network_name : String → Result String Unit
validate_network_name name =
    if first_and_rest is_alphanumeric is_network_char name
    then ok tt
    else err
        "network must start with a letter/digit and contain only letters, digits, '_', '.', '-'"

abbrev pub is_env_char : ℕ → Bool
is_env_char c = is_alphanumeric c || nat_eq c b'_'

abbrev pub is_env_first : ℕ → Bool
is_env_first c = is_alphabetic c || nat_eq c b'_'

unfoldable pub validate_env_var_name : String → Result String Unit
validate_env_var_name name =
    if first_and_rest is_env_first is_env_char name
    then ok tt
    else err ("env variable name '" ⧺ name ⧺ "' must match [A-Za-z_][A-Za-z0-9_]*")

unfoldable pub validate_env_names : List (String × Scalar) → Result String Unit
unfolding validate_env_var_name
validate_env_names [] = ok tt
validate_env_names (v ∷ vars) = Result.◌>>◌ (validate_env_var_name v.0) (validate_env_names vars)

unfoldable pub parse_env : Option (List (String × Scalar)) → Result String (List (String × String))
unfolding validate_env_names raw_env_value
parse_env none = ok []
parse_env (some vars) =
    Result.◌>>◌ (validate_env_names vars)
      (ok (map (λ (v : String × Scalar). (v.0, raw_env_value v.1)) vars))

unfoldable pub parse_runtime : String → Result String ContainerRuntime
parse_runtime value =
    if value == "docker"
    then ok docker
    else (if value == "macos_container"
        then ok macos_container
        else err ("platform must be 'docker' or 'macos_container'; got '" ⧺ value ⧺ "'"))

abbrev pub is_docker : ContainerRuntime → Bool
is_docker docker = true
is_docker macos_container = false

module _ (system : System) where
  unfoldable pub validate_plugin_network_isolation_support :
      ContainerRuntime → Bool → Result String Unit
  validate_plugin_network_isolation_support runtime network_isolation =
      if network_isolation && is_docker runtime && system.is_macos
      then err
          "network_isolation: true is not supported with platform: docker on macOS; set network_isolation: false or platform: macos_container for this plugin"
      else ok tt

  abbrev pub path_error : String → String → String → String
  path_error field path what = field ⧺ " '" ⧺ path ⧺ "' " ⧺ what

  unfoldable pub validate_directory : String → String → Result String Unit
  validate_directory path field =
      Result.◌>>=◌
        (Result.map_err (λ e. path_error field path ("is not accessible: " ⧺ e))
          (system.metadata path))
        λ metadata.
          if metadata.is_dir then ok tt else err (path_error field path "is not a directory")

  unfoldable pub validate_readable_file : String → String → Result String Unit
  validate_readable_file path field =
      Result.◌>>=◌
        (Result.map_err (λ e. path_error field path ("is not accessible: " ⧺ e))
          (system.metadata path))
        λ metadata.
          if metadata.is_file
          then Result.map_err (λ e. path_error field path ("is not readable: " ⧺ e))
              (system.open_file path)
          else err (path_error field path "is not a file")

  unfoldable pub bearer_auth : RawPluginMcpContainerAuth → Result String PluginMcpContainerAuth
  unfolding validate_readable_file
  bearer_auth auth =
      Result.◌>>=◌ (Result.ok_or "missing auth.secret_file" auth.secret_file) λ secret_file.
        Result.◌>>◌ (validate_readable_file secret_file "auth.secret_file") (
          ok (
            bearer_token secret_file
              (get_or auth.secret_mount_path "/run/secrets/mcp_bearer_token")))

  unfoldable pub parse_auth :
      Option RawPluginMcpContainerAuth → Result String PluginMcpContainerAuth
  unfolding required_string bearer_auth
  parse_auth raw = Result.◌>>=◌ (Result.ok_or "missing auth" raw) λ auth.
      Result.◌>>=◌ (required_string auth.auth_type "auth.type") λ kind.
        if kind == "none"
        then ok no_auth
        else (if kind == "bearer_token"
            then bearer_auth auth
            else err ("auth.type must be 'none' or 'bearer_token'; got '" ⧺ kind ⧺ "'"))
