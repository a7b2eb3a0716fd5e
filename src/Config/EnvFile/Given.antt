-- ===== src/Config/EnvFile/Given.antt =====
-- What the single readers of crates/platform/src/config/env_file.rs return when they succeed.
use brain.Base.{
  ℕ, ◌<◌, ◌≡◌, refl, ap, ◌∙◌, String, Option, none, some, false, List, [], ◌∷◌, ◌++◌, nat_eq, arith,
  inl, inr, Bool-cases, Option-cases,
}
use brain.Base.Optional
use brain.Base.Optional.{is_some, or_else}
use brain.Base.Parse
use brain.Base.Parse.{parse_bound}
use brain.Base.Result.{Result, ok, err, map_err, bind-ok, ok-injective}
use brain.Base.Text.{is_empty, ◌⧺◌}
use brain.Base.Whitespace.{trim}
use brain.Config.EnvFile.{
  Process, invalid, NativeAudioTranscriptionConfig, LocalMcpConfig, non_empty, parsed, port_of,
  positive, lifetime, env_var_or, trimmed, not_blank, require_nonempty, local_port, local_mcp,
  load_local_mcp_config, model_path, audio_bytes, load_native_audio_transcription_config,
}

-- A text with a character that is not white space.
abbrev pub IsGiven : String → Type 0
IsGiven s = is_empty (trim s) ≡ false

abbrev pub HasToken : Option LocalMcpConfig → Type 0
HasToken none = Unit
HasToken (some config) = (is_empty config.bearer_token ≡ false) × (config.port < 65536)

map_err-ok : {E F A : Type 0} (f : E → F) (r : Result E A) (a : A) → map_err f r ≡ ok a → r ≡ ok a
map_err-ok f (ok b) a h = ap ok (ok-injective h)
map_err-ok f (err e) a h = cc

parsed_bound :
    (bound : ℕ) (name value : String) (n : ℕ)
    → 0 < bound
    → parsed bound name value ≡ ok n
    → n < bound
unfolding parsed
parsed_bound bound name value n below h =
    parse_bound bound value n below
      (map_err-ok (λ e. invalid (name ⧺ ": " ⧺ e)) (Parse.parse bound value) n h)

pub port_bound :
    (process : Process) (name default : String) (port : ℕ)
    → port_of process name default ≡ ok port
    → port < 65536
unfolding port_of
port_bound process name default port h =
    parsed_bound 65536 name (env_var_or process name default) port (omega arith) h

positive-ok : (name : String) (n m : ℕ) → positive name n ≡ ok m → (n ≡ m) × (0 < m)
positive-ok name n m h = elim (Bool-cases (nat_eq n 0)) [
  | inl zeroed ↦ absurd (ground arith)
  | inr above ↦ (ok-injective (rw above at h), ground (arith, ok-injective (rw above at h)))
]

pub lifetime_bounds :
    (process : Process) (name default : String) (n : ℕ)
    → lifetime process name default ≡ ok n
    → (0 < n) × (n < 18446744073709551616)
unfolding lifetime
lifetime_bounds process name default n h =
    let value = env_var_or process name default in
    let (given, (read, checked)) = bind-ok (parsed 18446744073709551616 name value) _ n h in
    let (same, above) = positive-ok name given n checked in
    (above, rw (← same) (parsed_bound 18446744073709551616 name value given (omega arith) read))

non_empty-some :
    (given : Option String) (s : String) → non_empty given ≡ some s → is_empty s ≡ false
non_empty-some none s h = ground arith
non_empty-some (some t) s h = ground arith

local_port-bound :
    (given : Option String) (port : ℕ) → local_port given ≡ ok (some port) → port < 65536
local_port-bound none port h = ground (arith, ok-injective h)
local_port-bound (some value) port h =
    let (n, (read, same)) = bind-ok (parsed 65536 "B3_LOCAL_MCP_PORT" value) _ (some port) h in
    let below = parsed_bound 65536 "B3_LOCAL_MCP_PORT" value n (omega arith) read in
    ground (arith, ok-injective same)

pub load_local_mcp_config-HasToken :
    (process : Process) (config : Option LocalMcpConfig)
    → load_local_mcp_config process ≡ ok config
    → HasToken config
unfolding load_local_mcp_config trimmed
load_local_mcp_config-HasToken process config h =
    let (port, (read, rest)) =
      bind-ok (local_port (trimmed process "B3_LOCAL_MCP_PORT")) _ config h in
    given port (trimmed process "LOCAL_GATEWAY_MCP_BEARER_TOKEN")
      (λ token e.
        non_empty-some (Optional.map trim (process.var "LOCAL_GATEWAY_MCP_BEARER_TOKEN")) token e)
      (λ n e. local_port-bound (trimmed process "B3_LOCAL_MCP_PORT") n (read ∙ ap ok e)) rest
  where
    given :
        (port : Option ℕ) (token : Option String)
        → ((t : String) → token ≡ some t → is_empty t ≡ false)
        → ((n : ℕ) → port ≡ some n → n < 65536)
        → local_mcp port token ≡ ok config
        → HasToken config
    given none none t n e = rw (← ok-injective e) tt
    given none (some token) t n e = rw (← ok-injective e) (t token refl, omega arith)
    given (some port) none t n e = cc
    given (some port) (some token) t n e = rw (← ok-injective e) (t token refl, n port refl)

pub load_native_audio_transcription_config-positive :
    (process : Process) (home_override : Option String) (config : NativeAudioTranscriptionConfig)
    → load_native_audio_transcription_config process home_override ≡ ok config
    → 0 < config.max_audio_bytes
unfolding load_native_audio_transcription_config
load_native_audio_transcription_config-positive process home_override config h =
    let (path, (_, h1)) =
      bind-ok
        (model_path process home_override
          (Optional.get_or (trimmed process "B3_WHISPER_MODEL") "base.en"))
        _ config h in
    let (given, (_, h2)) =
      bind-ok (audio_bytes (process.var "B3_WHISPER_MAX_AUDIO_BYTES")) _ config h1 in
    let (n, (checked, same)) = bind-ok (positive "B3_WHISPER_MAX_AUDIO_BYTES" given) _ config h2 in
    ground (
      arith,
      positive-ok "B3_WHISPER_MAX_AUDIO_BYTES" given n checked,
      ap (λ (c : NativeAudioTranscriptionConfig). c.max_audio_bytes) (ok-injective same),
    )

not_blank-IsGiven :
    (process : Process) (name value : String) → not_blank process name ≡ some value → IsGiven value
unfolding not_blank
not_blank-IsGiven process name value h = ground arith

appended-not_empty : (names : List String) (name : String) → (names ++ name ∷ []) ≡ [] → ⊥
appended-not_empty [] name h = ground arith
appended-not_empty (n ∷ names) name h = ground arith

-- When no name is reported, the value is given and no earlier one was reported.
pub require_nonempty-IsGiven :
    (process : Process) (name : String) (errors : List String)
    → (require_nonempty process name errors).1 ≡ []
    → IsGiven (require_nonempty process name errors).0 × (errors ≡ [])
unfolding require_nonempty
require_nonempty-IsGiven process name errors h = elim (Option-cases (not_blank process name)) [
  | inl absent ↦ absurd (appended-not_empty errors name (rw (require_nonempty, absent) at h))
  | inr (value, given) ↦
      rw (require_nonempty, given)
        (not_blank-IsGiven process name value given, rw (require_nonempty, given) at h)
]
