-- ===== src/Config/EnvFile.antt =====
-- The variables of the gateway's environment in crates/platform/src/config/env_file.rs, with the
-- home directory of util.rs and setup/app_home.rs. Paths are texts, joined as on Unix.
pub mod Hosts
pub mod Startup
pub mod Load
pub mod Given
pub mod Hosted
pub mod Coherent
mod Tests
use Prim.Native.Char.{code}
use brain.Base.{
  ℕ, ◌+◌, ◌*◌, String, Option, none, some, Bool, true, false, not, ◌||◌, ◌&&◌, List, [], ◌∷◌, ◌++◌,
  ◌==◌, any, nat_eq, if◌then◌else◌,
}
use brain.Base.Optional
use brain.Base.Optional.{get_or, or_else}
use brain.Base.Parse
use brain.Base.Result.{Result, ok, err, ◌>>=◌, map_err, ok_or}
use brain.Base.Text
use brain.Base.Text.{◌⧺◌, is_empty, lowercase_is, strip_prefix, strip_suffix}
use brain.Base.Whitespace.{trim}

pub data ConfigError : Type 0 where
  missing invalid conflict : String → ConfigError

pub data AccessMode : Type 0 where
  local remote both : AccessMode

pub record LocalMcpConfig : Type 0 where
  pub port : ℕ
  pub bearer_token : String

pub record NativeAudioTranscriptionConfig : Type 0 where
  pub enabled : Bool
  pub model : String
  pub model_path : String
  pub max_audio_bytes : ℕ

-- What the process finds: the variables as they stand after the environment file has been read, the
-- Unicode lower case of a text, the operating system, and the 64 characters that the generator draws.
-- A variable whose value is not Unicode is as one that is not set.
pub record Process : Type 0 where
  pub var : String → Option String
  pub to_lowercase : String → String
  pub os : String
  pub random_secret : String

abbrev pub non_empty : Option String → Option String
non_empty none = none
non_empty (some s) = if is_empty s then none else some s

-- `root.join(path)`: an absolute path takes the place of the root.
abbrev pub path_join : String → String → String
path_join root path =
    if Optional.is_some (strip_prefix "/" path)
    then path
    else if is_empty root || Optional.is_some (strip_suffix "/" root)
    then root ⧺ path
    else root ⧺ "/" ⧺ path

-- `["0", "false", "no", "off"].contains(&value.trim().to_lowercase())`, negated
unfoldable pub is_enabled : String → Bool
unfolding lowercase_is trim
is_enabled value = not (any (lowercase_is (trim value)) ("0" ∷ "false" ∷ "no" ∷ "off" ∷ []))

unfoldable pub whisper_model_filename : String → String
unfolding strip_prefix strip_suffix
whisper_model_filename model =
    if Optional.is_some (strip_prefix "ggml-" model) && Optional.is_some (strip_suffix ".bin" model)
    then model
    else "ggml-" ⧺ model ⧺ ".bin"

-- A number of a variable, `bound` the first that its type does not have.
unfoldable pub parsed : ℕ → String → String → Result ConfigError ℕ
unfolding Parse.parse
parsed bound name value = map_err (λ e. invalid (name ⧺ ": " ⧺ e)) (Parse.parse bound value)

abbrev positive : String → ℕ → Result ConfigError ℕ
positive name n = if nat_eq n 0 then err (invalid (name ⧺ " must be greater than 0")) else ok n

abbrev access_mode : Option String → Result ConfigError AccessMode
access_mode none = ok both
access_mode (some value) =
    if value == "local"
    then ok local
    else if value == "remote"
    then ok remote
    else if value == "both"
    then ok both
    else err (invalid ("B3_ACCESS_MODE must be 'local', 'remote', or 'both'; got '" ⧺ value ⧺ "'"))

abbrev local_mcp : Option ℕ → Option String → Result ConfigError (Option LocalMcpConfig)
local_mcp none none = ok none
local_mcp (some port) (some token) = ok (some (record { port = port; bearer_token = token }))
local_mcp none (some token) = ok (some (record { port = 2764; bearer_token = token }))
local_mcp (some port) none =
    err (missing "LOCAL_GATEWAY_MCP_BEARER_TOKEN is required when B3_LOCAL_MCP_PORT is set")

abbrev audio_bytes : Option String → Result ConfigError ℕ
audio_bytes none = ok (50 * 1024 * 1024)
audio_bytes (some value) = parsed 18446744073709551616 "B3_WHISPER_MAX_AUDIO_BYTES" value

abbrev local_port : Option String → Result ConfigError (Option ℕ)
local_port none = ok none
local_port (some value) = do port ← parsed 65536 "B3_LOCAL_MCP_PORT" value; ok (some port)

module _ (process : Process) where
  unfoldable pub env_var_or : String → String → String
  env_var_or name default = get_or (process.var name) default

  -- `.ok().map(trim).filter(|value| !value.is_empty())`
  unfoldable pub trimmed : String → Option String
  unfolding trim
  trimmed name = non_empty (Optional.map trim (process.var name))

  -- A port, which has 16 bits.
  unfoldable pub port_of : String → String → Result ConfigError ℕ
  unfolding env_var_or parsed
  port_of name default = parsed 65536 name (env_var_or name default)

  unfoldable pub lifetime : String → String → Result ConfigError ℕ
  unfolding env_var_or parsed
  lifetime name default =
      parsed 18446744073709551616 name (env_var_or name default) >>= positive name

  unfoldable pub load_access_mode : Result ConfigError AccessMode
  load_access_mode = access_mode (process.var "B3_ACCESS_MODE")

  unfoldable pub user_home_dir : Option String
  user_home_dir = or_else (non_empty (process.var "HOME")) (non_empty (process.var "USERPROFILE"))

  -- `$B3_HOME`, or `.brain3` in the home directory.
  unfoldable home_root : String → Result ConfigError String
  unfolding user_home_dir strip_prefix strip_suffix
  home_root reason = elim (non_empty (process.var "B3_HOME")) [
    | some root ↦ ok root
    | none ↦ elim user_home_dir [
      | some home ↦ ok (path_join home ".brain3")
      | none ↦ err (missing ("neither HOME nor USERPROFILE is set" ⧺ reason))
    ]
  ]

  unfoldable pub resolve_app_home_root : Option String → Result ConfigError String
  unfolding home_root
  resolve_app_home_root none = home_root "; cannot resolve B3_HOME"
  resolve_app_home_root (some root) = ok root

  -- `Brain3AppHome::resolve_from_env()`, for the directory of the tunnel's files.
  unfoldable pub cloudflared_dir : Result ConfigError String
  unfolding home_root strip_prefix strip_suffix
  cloudflared_dir = do
    root ←
        map_err
          (λ e. missing (
            "invalid setup: neither HOME nor USERPROFILE is set"
            ⧺ "; cannot resolve default Cloudflare tunnel config file path"))
          (home_root "")
    ok (path_join root "cloudflared")

  unfoldable pub resolve_token_db_path : Option String → Result ConfigError String
  unfolding home_root strip_prefix strip_suffix
  resolve_token_db_path token_db_home_override = elim (non_empty (process.var "B3_TOKEN_DB_PATH")) [
    | some path ↦ ok path
    | none ↦ elim token_db_home_override [
      | some root ↦ ok (path_join root "brain3.db")
      | none ↦ do
        root ← home_root "; cannot resolve default token database path"
        ok (path_join root "brain3.db")
    ]
  ]

  -- `Ok(val) if !val.trim().is_empty() => val`
  unfoldable pub not_blank : String → Option String
  unfolding trim
  not_blank name = elim (process.var name) [
    | none ↦ none
    | some value ↦ if is_empty (trim value) then none else some value
  ]

  -- The value, and the names that are missing.
  unfoldable pub require_nonempty : String → List String → String × List String
  unfolding not_blank
  require_nonempty name errors = elim (not_blank name) [
    | some value ↦ (value, errors)
    | none ↦ ("", errors ++ name ∷ [])
  ]

  unfoldable pub require_nonempty_env : String → String → Result ConfigError String
  unfolding not_blank
  require_nonempty_env name context =
      ok_or (missing (name ⧺ " is required " ⧺ context)) (not_blank name)

  unfoldable pub env_bool : String → Bool → Bool
  unfolding is_enabled
  env_bool name default = get_or (Optional.map is_enabled (process.var name)) default

  abbrev model_path : Option String → String → Result ConfigError String
  model_path home_override model = elim (non_empty (process.var "B3_WHISPER_MODEL_PATH")) [
    | some path ↦ ok path
    | none ↦ do
      root ← resolve_app_home_root home_override
      ok (path_join (path_join root "whisper-models") (whisper_model_filename model))
  ]

  unfoldable pub load_native_audio_transcription_config :
      Option String → Result ConfigError NativeAudioTranscriptionConfig
  unfolding env_bool trimmed resolve_app_home_root whisper_model_filename strip_prefix strip_suffix
      parsed
  load_native_audio_transcription_config home_override =
      let model = get_or (trimmed "B3_WHISPER_MODEL") "base.en" in
      (do
        model_path ← model_path home_override model
        given ← audio_bytes (process.var "B3_WHISPER_MAX_AUDIO_BYTES")
        max_audio_bytes ← positive "B3_WHISPER_MAX_AUDIO_BYTES" given
        ok (record {
          enabled = env_bool "B3_NATIVE_AUDIO_TRANSCRIPTION_ENABLED" false;
          model = model;
          model_path = model_path;
          max_audio_bytes = max_audio_bytes;
        }))

  unfoldable pub load_local_mcp_config : Result ConfigError (Option LocalMcpConfig)
  unfolding trimmed parsed
  load_local_mcp_config = do
    port ← local_port (trimmed "B3_LOCAL_MCP_PORT")
    local_mcp port (trimmed "LOCAL_GATEWAY_MCP_BEARER_TOKEN")

  unfoldable pub load_upstream_shared_secret : String
  unfolding trimmed
  load_upstream_shared_secret = get_or (trimmed "B3_UPSTREAM_SHARED_SECRET") process.random_secret
