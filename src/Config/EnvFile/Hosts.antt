-- ===== src/Config/EnvFile/Hosts.antt =====
-- The public host and the tunnel of the gateway in crates/platform/src/config/env_file.rs.
use brain.Base.{ℕ, String, Option, none, some, Bool, false, not, ◌&&◌, if◌then◌else◌}
use brain.Base.Optional
use brain.Base.Optional.{get_or, or_else, is_some}
use brain.Base.Result.{Result, ok, err, ◌>>=◌}
use brain.Base.Text.{
  ◌⧺◌, is_empty, trim_start_matches, trim_end_matches, strip_prefix, strip_suffix,
}
use brain.Base.Whitespace.{trim}
use brain.Config.EnvFile.{
  Process, ConfigError, conflict, env_var_or, is_enabled, cloudflared_dir, path_join, env_bool,
}

pub data TunnelConfig : Type 0 where
  cloudflare_quick : (local_port : ℕ) → TunnelConfig
  cloudflare_named : (tunnel_name domain config_file : String) (local_port : ℕ) → TunnelConfig

abbrev conflict_text : String
conflict_text =
    "Both named Cloudflare tunnel hostname settings (B3_CF_TUNNEL_NAME and B3_CF_DOMAIN) and "
    ⧺ "B3_DIRECT_PUBLIC_ORIGIN_HOSTNAME are set. Choose only one public hostname configuration."

abbrev pub one_of : Option String → Option String → Result ConfigError (Option String)
one_of named direct =
    if is_some named && is_some direct
    then err (conflict conflict_text)
    else ok (or_else named direct)

module _ (process : Process) where
  -- `value.trim().trim_matches('.').to_lowercase()`
  unfoldable pub normalize_hostname : String → String
  unfolding trim trim_start_matches trim_end_matches
  normalize_hostname value =
      process.to_lowercase (trim_start_matches b'.' (trim_end_matches b'.' (trim value)))

  unfoldable pub normalized : String → String
  unfolding env_var_or normalize_hostname
  normalized name = normalize_hostname (env_var_or process name "")

  unfoldable pub named_tunnel_host : Option String
  unfolding normalized
  named_tunnel_host =
      let tunnel_name = normalized "B3_CF_TUNNEL_NAME" in
      let domain = normalized "B3_CF_DOMAIN" in
      if is_empty tunnel_name
      then none
      else if is_empty domain
      then none
      else some (tunnel_name ⧺ "." ⧺ domain)

  unfoldable pub direct_public_origin_hostname : Option String
  unfolding normalized
  direct_public_origin_hostname =
      let hostname = normalized "B3_DIRECT_PUBLIC_ORIGIN_HOSTNAME" in
      if is_empty hostname then none else some hostname

  unfoldable pub quick_explicit : Bool
  unfolding is_enabled
  quick_explicit = get_or (Optional.map is_enabled (process.var "B3_CF_QUICK_TUNNEL")) false

  unfoldable pub resolve_expected_host : Result ConfigError (Option String)
  unfolding quick_explicit named_tunnel_host direct_public_origin_hostname
  resolve_expected_host =
      if quick_explicit then ok none else one_of named_tunnel_host direct_public_origin_hostname

  unfoldable pub config_file_of : String → Result ConfigError String
  unfolding env_var_or cloudflared_dir strip_prefix strip_suffix
  config_file_of tunnel_name =
      let config_file = env_var_or process "B3_CF_TUNNEL_CONFIG_FILE" "" in
      let default = (do
        cloudflared_dir ← cloudflared_dir process
        ok (path_join cloudflared_dir (tunnel_name ⧺ ".yml"))) in
      if is_empty config_file then default else ok config_file

  abbrev pub named_tunnel : ℕ → String → String → Result ConfigError (Option TunnelConfig)
  named_tunnel gateway_port tunnel_name domain = do
    config_file ← config_file_of tunnel_name
    ok (some (cloudflare_named tunnel_name domain config_file gateway_port))

  unfoldable pub load_tunnel_config : ℕ → Result ConfigError (Option TunnelConfig)
  unfolding quick_explicit normalized config_file_of env_bool
  load_tunnel_config gateway_port =
      let tunnel_name = normalized "B3_CF_TUNNEL_NAME" in
      let domain = normalized "B3_CF_DOMAIN" in
      let quick_default = env_bool process "B3_CF_QUICK_TUNNEL" false in
      if quick_explicit
      then ok (some (cloudflare_quick gateway_port))
      else if not (is_empty tunnel_name) && not (is_empty domain)
      then named_tunnel gateway_port tunnel_name domain
      else if quick_default
      then ok (some (cloudflare_quick gateway_port))
      else ok none
