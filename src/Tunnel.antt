-- ===== src/Tunnel.antt =====
-- The start of a tunnel in crates/platform/src/tunnel/startup.rs, over the port of
-- crates/core/src/ports/tunnel.rs.
mod Rules
pub mod Laws
mod Tests
use brain.Base.{
  ℕ, ◌≡◌, refl, String, Option, none, some, Bool, true, false, List, [], ◌∷◌, nat_eq, inl, inr,
  Bool-cases, Option-cases, arith, if◌then◌else◌,
}
use brain.Base.Io.{Io, ◌>>=◌, ◌>>◌, pure, lift}
use brain.Base.Lines.{lines}
use brain.Base.Optional
use brain.Base.Optional.{is_some, and_then}
use brain.Base.Parse
use brain.Base.Parse.{last_part, first_part}
use brain.Base.Result.{Result, ok, err, to_option}
use brain.Base.Text.{◌⧺◌, strip_prefix}
use brain.Base.Whitespace.{trim}
use brain.Config.EnvFile.Hosts.{TunnelConfig, cloudflare_quick, cloudflare_named}

pub data TunnelError : Type 0 where
  cloudflared_not_found cloudflared_not_logged_in : TunnelError
  config_not_found credentials_not_found setup_failed spawn_failed tunnel_not_found not_reachable
        other :
      String → TunnelError
  port_mismatch : (config_port gateway_port : ℕ) (config_file : String) → TunnelError

-- The address of a service that a line routes to, but for a fixed status.
unfoldable pub service_url : String → Option String
unfolding strip_prefix trim
service_url line = elim (strip_prefix "service:" (trim line)) [
  | none ↦ none
  | some rest ↦ if is_some (strip_prefix "http_status:" (trim rest)) then none else some (trim rest)
]

-- The port at the end of an address, before its path.
unfoldable pub port_of_url : String → Option ℕ
unfolding first_part Parse.parse
port_of_url url = to_option (Parse.parse 65536 (first_part b'/' (last_part b':' url)))

-- The loop over the lines.
unfoldable pub check_lines : ℕ → String → List String → Result TunnelError Unit
unfolding service_url port_of_url
check_lines expected_port config_file [] = ok tt
check_lines expected_port config_file (line ∷ rest) =
    let later = check_lines expected_port config_file rest in
    elim (and_then (service_url line) port_of_url) [
      | none ↦ later
      | some config_port ↦
          if nat_eq config_port expected_port
          then ok tt
          else err (port_mismatch config_port expected_port config_file)
    ]

-- The files, with the text of an error, and the adapters of the two kinds of tunnel: what their start
-- returns.
pub record Tunnels (W Info : Type 0) : Type 0 where
  pub read_to_string : String → W → Result String String
  pub start_quick : (local_port : ℕ) (pid_file : String) → Io W TunnelError Info
  pub start_named : (tunnel_name domain config_file pid_file : String) → Io W TunnelError Info

module _ {W Info : Type 0} (tunnels : Tunnels W Info) where
  abbrev check_content : String → ℕ → Result String String → Result TunnelError Unit
  check_content config_file expected_port (err e) =
      err (other ("failed to read tunnel config " ⧺ config_file ⧺ ": " ⧺ e))
  check_content config_file expected_port (ok content) =
      check_lines expected_port config_file (lines content)

  unfoldable pub validate_named_tunnel_config_port : String → ℕ → Io W TunnelError Unit
  unfolding check_lines lines
  validate_named_tunnel_config_port config_file expected_port w =
      (check_content config_file expected_port (tunnels.read_to_string config_file w), w)

  unfoldable pub start_tunnel : TunnelConfig → String → Io W TunnelError Info
  unfolding validate_named_tunnel_config_port
  start_tunnel (cloudflare_quick local_port) pid_file = tunnels.start_quick local_port pid_file
  start_tunnel (cloudflare_named tunnel_name domain config_file local_port) pid_file = do
    validate_named_tunnel_config_port config_file local_port
    tunnels.start_named tunnel_name domain config_file pid_file
