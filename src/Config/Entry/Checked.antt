-- ===== src/Config/Entry/Checked.antt =====
-- The parts of an entry that has passed its checks.
use brain.Base.{
  ◌≡◌, refl, String, none, some, Option, Bool, true, false, ◌&&◌, List, [], ◌∷◌, All, map, arith,
  ◌==◌, inl, inr, Bool-cases,
}
use brain.Base.Optional.{get_or}
use brain.Base.Result
use brain.Base.Result.{Result, ok, err, ok-injective, bind-ok}
use brain.Base.Text.{is_empty}
use brain.Config.Entry.{valid_name, valid_fields}
use brain.Config.Fields.{
  RawPluginMcpContainerAuth, RawPluginMcpContainerConfig, Scalar, raw_env_value, System, Metadata,
  required_string, validate_name, all_chars, is_name_char, is_reserved, first_and_rest,
  is_alphanumeric, is_network_char, is_env_first, is_env_char, is_docker, validate_network_name,
  validate_directory, validate_env_names, validate_env_var_name, parse_env, parse_runtime,
  parse_auth, bearer_auth, validate_readable_file, validate_plugin_network_isolation_support,
}
use brain.Container.Model.{PluginMcpContainerAuth, no_auth, bearer_token, PluginMcpContainerConfig}
use brain.Container.Settings.{plugin_mcp_container_asset_mount}

-- A name of lower-case letters, digits and underscores whose mount is not one of the gateway's own.
pub record IsName (name : String) : Type 0 where
  pub chars : all_chars is_name_char name ≡ true
  pub non_empty : is_empty name ≡ false
  pub unreserved : is_reserved (plugin_mcp_container_asset_mount name) ≡ false

abbrev pub IsDirectory : System → String → Type 0
IsDirectory system path = (m : Metadata) × ((system.metadata path ≡ ok m) × (m.is_dir ≡ true))

abbrev pub IsReadable : System → String → Type 0
IsReadable system path =
    (m : Metadata) × ((system.metadata path ≡ ok m)
      × (m.is_file ≡ true)
      × (system.open_file path ≡ ok tt))

abbrev pub HasSecret : System → PluginMcpContainerAuth → Type 0
HasSecret system no_auth = Unit
HasSecret system (bearer_token secret_file secret_mount_path) = IsReadable system secret_file

abbrev pub IsVariable : String × String → Type 0
IsVariable variable = first_and_rest is_env_first is_env_char variable.0 ≡ true

-- A configuration as the start of its container needs it.
pub record IsChecked (system : System) (config : PluginMcpContainerConfig) : Type 0 where
  pub network : first_and_rest is_alphanumeric is_network_char config.network_name ≡ true
  pub directory : IsDirectory system config.host_directory
  pub isolation : (config.network_isolation && is_docker config.runtime && system.is_macos) ≡ false
  pub variables : All IsVariable config.env
  pub secret : HasSecret system config.auth

validate_name-ok : (name : String) (u : Unit) → validate_name name ≡ ok u → IsName name
unfolding validate_name
validate_name-ok name u h = record {
  chars = ground arith;
  non_empty = ground arith;
  unreserved = ground arith;
}

pub valid_name-IsName :
    (field : Option String) (name : String) → valid_name field ≡ ok name → IsName name
unfolding valid_name
valid_name-IsName field name h =
    let (raw, (_, h1)) = bind-ok (required_string field "name") _ name h in
    let (u, (valid, h2)) = bind-ok (validate_name raw) _ name h1 in
    rw (← ok-injective h2) (validate_name-ok raw u valid)

err-ok : {E A : Type 0} {e : E} {a : A} → err e ≡ ok a → ⊥
err-ok h = cc

validate_network_name-ok :
    (name : String) (u : Unit)
    → validate_network_name name ≡ ok u
    → first_and_rest is_alphanumeric is_network_char name ≡ true
unfolding validate_network_name
validate_network_name-ok name u h = ground arith

isolation_support-ok :
    (system : System) (runtime : _) (isolated : Bool) (u : Unit)
    → validate_plugin_network_isolation_support system runtime isolated ≡ ok u
    → (isolated && is_docker runtime && system.is_macos) ≡ false
unfolding validate_plugin_network_isolation_support
isolation_support-ok system runtime isolated u h = ground arith

validate_directory-ok :
    (system : System) (path field : String) (u : Unit)
    → validate_directory system path field ≡ ok u
    → IsDirectory system path
unfolding validate_directory
validate_directory-ok system path field u h = at (system.metadata path) refl
  where
    at : (r : Result String Metadata) → system.metadata path ≡ r → IsDirectory system path
    at (ok m) e = (m, (e, ground arith))
    at (err reason) e = ground arith

file-ok :
    (system : System) (path field : String) (u : Unit)
    → validate_readable_file system path field ≡ ok u
    → IsReadable system path
unfolding validate_readable_file
file-ok system path field u h = at (system.metadata path) refl
  where
    at : (r : Result String Metadata) → system.metadata path ≡ r → IsReadable system path
    at (ok m) e = (m, (e, ground arith, ground arith))
    at (err reason) e = ground arith

variable-ok :
    (name : String) (u : Unit)
    → validate_env_var_name name ≡ ok u
    → first_and_rest is_env_first is_env_char name ≡ true
unfolding validate_env_var_name
variable-ok name u h = ground arith

env_names-ok :
    (vars : List (String × Scalar)) (u : Unit)
    → validate_env_names vars ≡ ok u
    → All IsVariable (map (λ (v : String × Scalar). (v.0, raw_env_value v.1)) vars)
unfolding validate_env_names
env_names-ok [] u h = tt
env_names-ok (v ∷ vars) u h =
    let (_, (first, rest)) = bind-ok (validate_env_var_name v.0) _ u h in
    (variable-ok v.0 _ first, env_names-ok vars u rest)

env-ok :
    (raw : Option (List (String × Scalar))) (env : List (String × String))
    → parse_env raw ≡ ok env
    → All IsVariable env
unfolding parse_env
env-ok none env h = rw (← ok-injective h) tt
env-ok (some vars) env h =
    let (u, (named, same)) = bind-ok (validate_env_names vars) _ env h in
    rw (← ok-injective same) (env_names-ok vars u named)

bearer-ok :
    (system : System) (given : RawPluginMcpContainerAuth) (auth : PluginMcpContainerAuth)
    → bearer_auth system given ≡ ok auth
    → HasSecret system auth
unfolding bearer_auth
bearer-ok system given auth h =
    let (file, (_, h1)) =
      bind-ok (Result.ok_or "missing auth.secret_file" given.secret_file) _ auth h in
    let (u, (readable, h2)) =
      bind-ok (validate_readable_file system file "auth.secret_file") _ auth h1 in
    rw (← ok-injective h2) (file-ok system file "auth.secret_file" u readable)

auth-ok :
    (system : System) (raw : Option RawPluginMcpContainerAuth) (auth : PluginMcpContainerAuth)
    → parse_auth system raw ≡ ok auth
    → HasSecret system auth
unfolding parse_auth
auth-ok system raw auth h =
    let (given, (_, h1)) = bind-ok (Result.ok_or "missing auth" raw) _ auth h in
    let (kind, (_, h2)) = bind-ok (required_string given.auth_type "auth.type") _ auth h1 in
    elim (Bool-cases (kind == "none")) [
      | inl none_given ↦
          let same : ok no_auth ≡ ok auth = rw none_given at h2 in rw (← ok-injective same) tt
      | inr secret ↦ elim (Bool-cases (kind == "bearer_token")) [
        | inl bearer ↦ bearer-ok system given auth (rw bearer at (rw secret at h2))
        | inr unknown ↦ let refused = rw unknown at (rw secret at h2) in absurd (err-ok refused)
      ]
    ]

pub valid_fields-IsChecked :
    (system : System) (entry : RawPluginMcpContainerConfig) (name : String)
    (config : PluginMcpContainerConfig)
    → valid_fields system entry name ≡ ok config
    → (config.name ≡ name) × IsChecked system config
unfolding valid_fields
valid_fields-IsChecked system entry name config h =
    let isolated = get_or entry.network_isolation true in
    let (platform, (_, h1)) = bind-ok (required_string entry.platform "platform") _ config h in
    let (runtime, (_, h2)) = bind-ok (parse_runtime platform) _ config h1 in
    let (u, (supported, h3)) =
      bind-ok (validate_plugin_network_isolation_support system runtime isolated) _ config h2 in
    let (image, (_, h4)) = bind-ok (required_string entry.image "image") _ config h3 in
    let (tag, (_, h5)) = bind-ok (required_string entry.tag "tag") _ config h4 in
    let (port, (_, h6)) = bind-ok (Result.ok_or "missing port" entry.port) _ config h5 in
    let (directory, (_, h7)) =
      bind-ok (Result.ok_or "missing host_directory" entry.host_directory) _ config h6 in
    let (v, (is_there, h8)) =
      bind-ok (validate_directory system directory "host_directory") _ config h7 in
    let (network, (_, h9)) = bind-ok (required_string entry.network "network") _ config h8 in
    let (x, (named, h10)) = bind-ok (validate_network_name network) _ config h9 in
    let (env, (variables, h11)) = bind-ok (parse_env entry.env) _ config h10 in
    let (auth, (secret, h12)) = bind-ok (parse_auth system entry.auth) _ config h11 in
    rw (← ok-injective h12) (
      refl,
      record {
        network = validate_network_name-ok network x named;
        directory = validate_directory-ok system directory "host_directory" v is_there;
        isolation = isolation_support-ok system runtime isolated u supported;
        variables = env-ok entry.env env variables;
        secret = auth-ok system entry.auth auth secret;
      },
    )
