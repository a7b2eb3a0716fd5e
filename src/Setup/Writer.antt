-- ===== src/Setup/Writer.antt =====
-- The environment file of a draft, in crates/platform/src/setup/env_writer.rs. The template is the
-- text of .env.template; the overrides are the list of their entries, each name once.
use Prim.Native.Char.{code}
use brain.Base.{
  ℕ, String, Option, none, some, Bool, true, not, ◌&&◌, ◌||◌, List, [], ◌∷◌, ◌++◌, ◌==◌, find, leb,
  nat_eq, if◌then◌else◌,
}
use brain.Base.Optional
use brain.Base.Optional.{get_or}
use brain.Base.Lines.{lines}
use brain.Base.Result.{Result, ok, err, ◌>>=◌}
use brain.Base.Text.{◌⧺◌, is_empty, split_once, strip_prefix, strip_suffix}
use brain.Base.Whitespace.{trim, replace}
use brain.Config.EnvFile.{path_join}
use brain.Container.Model.{ContainerRuntime, docker, macos_container}
use brain.Domain.Decimal.{decimal}
use brain.Setup.Model.{
  SetupError, invalid, SetupPaths, AccessModeDraft, local_only, remote_only, both, TunnelModeDraft,
  disabled, cloudflare_quick, cloudflare_named, direct_public_origin, SetupDraftConfig,
}

abbrev container_runtime_value : ContainerRuntime → String
container_runtime_value docker = "docker"
container_runtime_value macos_container = "macos-container"

abbrev is_key_char : ℕ → Bool
is_key_char c = leb b'A' c && leb c b'Z' || leb b'0' c && leb c b'9' || nat_eq c b'_'

abbrev all_key_chars : String → Bool
all_key_chars String.[] = true
all_key_chars (String.◌∷◌ c s) = is_key_char (code c) && all_key_chars s

unfoldable pub is_env_assignment_key : String → Bool
is_env_assignment_key key = not (is_empty key) && all_key_chars key

unfoldable pub quote_env_value : String → String
unfolding replace
quote_env_value value = "\"" ⧺ replace b'"' "\\\"" (replace b'\\' "\\\\" value) ⧺ "\""

abbrev written_bool : Bool → String
written_bool b = if b then "true" else "false"

abbrev access_mode_value : AccessModeDraft → String
access_mode_value local_only = "local"
access_mode_value remote_only = "remote"
access_mode_value both = "both"

abbrev when_local : SetupDraftConfig → String → String
when_local draft value = if draft.local_mcp_enabled then value else ""

-- The entries that are written for every draft.
unfoldable pub draft_values : SetupDraftConfig → List (String × String)
unfolding decimal
draft_values draft =
    ("B3_OAUTH2_GATEWAY_PORT", decimal draft.gateway_port)
    ∷ ("B3_OAUTH2_GATEWAY_CLIENT_ID", draft.client_id)
    ∷ ("B3_OAUTH2_GATEWAY_CLIENT_SECRET", draft.client_secret)
    ∷ ("B3_OAUTH2_ACCESS_TOKEN_LIFETIME_SECS", decimal draft.access_token_lifetime_secs)
    ∷ ("B3_OAUTH2_REFRESH_TOKEN_LIFETIME_SECS", decimal draft.refresh_token_lifetime_secs)
    ∷ ("B3_ACCESS_MODE", access_mode_value draft.access_mode)
    ∷ ("B3_USERNAME", draft.username)
    ∷ ("B3_PASSWORD", draft.password)
    ∷ ("B3_CONTAINER_RUNTIME", container_runtime_value draft.container_runtime)
    ∷ ("B3_VAULT_PATH", draft.vault_path)
    ∷ ("B3_CONTAINER_IMAGE_REPO", draft.container_image_repo)
    ∷ ("B3_CONTAINER_IMAGE_TAG", "")
    ∷ ("B3_CONTAINER_HOST_PORT", decimal draft.container_host_port)
    ∷ ("B3_CONTAINER_MCP_PORT", decimal draft.container_mcp_port)
    ∷ ("B3_CONTAINER_NAME", draft.container_name)
    ∷ ("B3_CONTAINER_INTERNAL_NETWORK_ISOLATION", written_bool draft.container_network_isolated)
    ∷ ("B3_CONTAINER_NETWORK_NAME", draft.container_network_name)
    ∷ ("B3_LOCAL_MCP_PORT", when_local draft (decimal draft.local_mcp_port))
    ∷ ("LOCAL_GATEWAY_MCP_BEARER_TOKEN", when_local draft draft.local_mcp_bearer_token)
    ∷ ("B3_OAUTH2_PKCE_REQUIRED", written_bool draft.pkce_required)
    ∷ ("B3_OAUTH2_GATEWAY_ENFORCE_HOSTNAME_CHECK", written_bool draft.enforce_hostname_check)
    ∷ (
      "B3_NATIVE_AUDIO_TRANSCRIPTION_ENABLED",
      written_bool draft.native_audio_transcription_enabled,
    )
    ∷ ("B3_WHISPER_MODEL", draft.whisper_model)
    ∷ ("B3_WHISPER_MAX_AUDIO_BYTES", decimal draft.whisper_max_audio_bytes)
    ∷ []

abbrev pub tunnel_entries :
    (quick tunnel_name domain config_file hostname : String) → List (String × String)
tunnel_entries quick tunnel_name domain config_file hostname =
    ("B3_CF_QUICK_TUNNEL", quick)
    ∷ ("B3_CF_TUNNEL_NAME", tunnel_name)
    ∷ ("B3_CF_DOMAIN", domain)
    ∷ ("B3_CF_TUNNEL_CONFIG_FILE", config_file)
    ∷ ("B3_DIRECT_PUBLIC_ORIGIN_HOSTNAME", hostname)
    ∷ []

-- The hostname of the draft, where that of the mode is blank.
unfoldable pub direct_hostname : SetupDraftConfig → String → String
unfolding trim
direct_hostname draft hostname =
    if is_empty (trim hostname) then get_or draft.direct_public_origin_hostname "" else hostname

abbrev pub tunnel_values_of :
    SetupDraftConfig → SetupPaths → TunnelModeDraft → Result SetupError (List (String × String))
tunnel_values_of draft paths disabled = ok (tunnel_entries "false" "" "" "" "")
tunnel_values_of draft paths cloudflare_quick = ok (tunnel_entries "true" "" "" "" "")
tunnel_values_of draft paths (cloudflare_named tunnel_name domain) =
    if is_empty (trim tunnel_name) || is_empty (trim domain)
    then err (invalid "named tunnel mode requires both tunnel_name and domain")
    else ok (
        tunnel_entries "false" tunnel_name domain
          (path_join paths.cloudflared_dir (tunnel_name ⧺ ".yml")) "")
tunnel_values_of draft paths (direct_public_origin hostname) =
    if is_empty (trim (direct_hostname draft hostname))
    then err (invalid "direct public origin mode requires a hostname")
    else ok (tunnel_entries "false" "" "" "" (direct_hostname draft hostname))

unfoldable pub tunnel_values :
    SetupDraftConfig → SetupPaths → TunnelModeDraft → Result SetupError (List (String × String))
unfolding trim direct_hostname strip_prefix strip_suffix
tunnel_values draft paths mode = tunnel_values_of draft paths mode

unfoldable pub build_overrides :
    SetupDraftConfig → SetupPaths → Result SetupError (List (String × String))
unfolding draft_values tunnel_values
build_overrides draft paths = do
  tunnel ← tunnel_values draft paths draft.tunnel_mode
  ok (draft_values draft ++ tunnel)

abbrev pub override : List (String × String) → String → Option String
override overrides key =
    Optional.map (λ (e : String × String). e.1) (find (λ e. e.0 == key) overrides)

unfoldable pub render_line : List (String × String) → String → String
unfolding split_once is_env_assignment_key quote_env_value
render_line overrides line = elim (split_once "=" line) [
  | none ↦ line ⧺ "\n"
  | some parts ↦ elim (override overrides parts.0) [
    | none ↦ line ⧺ "\n"
    | some value ↦
        if is_env_assignment_key parts.0
        then parts.0 ⧺ "=" ⧺ quote_env_value value ⧺ "\n"
        else line ⧺ "\n"
  ]
]

abbrev render_lines : List (String × String) → List String → String
render_lines overrides [] = ""
render_lines overrides (line ∷ lines) = render_line overrides line ⧺ render_lines overrides lines

unfoldable pub render_env_file : String → SetupDraftConfig → SetupPaths → Result SetupError String
unfolding build_overrides render_line lines
render_env_file template draft paths = do
  overrides ← build_overrides draft paths
  ok (render_lines overrides (lines template))
