-- ===== src/Tunnel/Laws.antt =====
-- When the tunnel of crates/platform/src/tunnel/startup.rs is started, and when it is refused.
use brain.Base.{ℕ, ◌≡◌, refl, String, ◌⊎◌, inl, inr}
use brain.Base.Lines.{lines}
use brain.Base.Result.{Result, ok, err}
use brain.Base.Text.{◌⧺◌}
use brain.Config.EnvFile.Hosts.{cloudflare_named}
use brain.Tunnel.{
  TunnelError, other, port_mismatch, check_lines, Tunnels, validate_named_tunnel_config_port,
  start_tunnel,
}
use brain.Tunnel.Rules.{IsDecided, check_lines-Verdict}

module _ {W Info : Type 0} (tunnels : Tunnels W Info) (tunnel_name domain config_file : String)
    (local_port : ℕ) (pid_file : String) (w : W) where
  abbrev answer : Result TunnelError Info × W
  answer =
      start_tunnel tunnels (cloudflare_named tunnel_name domain config_file local_port) pid_file w

  abbrev IsStarted : Type 0
  IsStarted = answer ≡ tunnels.start_named tunnel_name domain config_file pid_file w

  abbrev IsRefused : ℕ → Type 0
  IsRefused port = answer ≡ (err (port_mismatch port local_port config_file), w)

  started :
      (content : String)
      → tunnels.read_to_string config_file w ≡ ok content
      → check_lines local_port config_file (lines content) ≡ ok tt
      → IsStarted
  unfolding start_tunnel validate_named_tunnel_config_port
  started content read admitted =
      rw (start_tunnel, validate_named_tunnel_config_port, read, admitted) refl

  refused :
      (content : String) (e : TunnelError)
      → tunnels.read_to_string config_file w ≡ ok content
      → check_lines local_port config_file (lines content) ≡ err e
      → answer ≡ (err e, w)
  unfolding start_tunnel validate_named_tunnel_config_port
  refused content e read wrong =
      rw (start_tunnel, validate_named_tunnel_config_port, read, wrong) refl

  unread :
      (e : String)
      → tunnels.read_to_string config_file w ≡ err e
      → answer ≡ (err (other ("failed to read tunnel config " ⧺ config_file ⧺ ": " ⧺ e)), w)
  unfolding start_tunnel validate_named_tunnel_config_port
  unread e failed = rw (start_tunnel, validate_named_tunnel_config_port, failed) refl

  decided :
      (content : String)
      → tunnels.read_to_string config_file w ≡ ok content
      → IsDecided local_port (lines content) IsStarted IsRefused
  decided content read = elim (check_lines-Verdict local_port config_file (lines content)) [
    | inl (all, admitted) ↦ inl (all, started content read admitted)
    | inr (before, (line, (after, (port, (split, skipped, routes, way))))) ↦ inr (
      before,
      (
        line,
        (
          after,
          (
            port,
            (
              split,
              skipped,
              routes,
              elim way [
                | inl (same, admitted) ↦ inl (same, started content read admitted)
                | inr (differ, wrong) ↦ inr (differ, refused content _ read wrong)
              ],
            ),
          ),
        ),
      ),
    )
  ]

  abbrev pub IsHandled : Type 0
  IsHandled =
      ((e : String) × (tunnels.read_to_string config_file w ≡ err e)
        × (answer ≡ (err (other ("failed to read tunnel config " ⧺ config_file ⧺ ": " ⧺ e)), w)))
      ⊎ ((content : String) × (tunnels.read_to_string config_file w ≡ ok content)
          × IsDecided local_port (lines content) IsStarted IsRefused)

  handled : (r : Result String String) → tunnels.read_to_string config_file w ≡ r → IsHandled
  handled (err e) failed = inl (e, failed, unread e failed)
  handled (ok content) read = inr (content, read, decided content read)

  -- A named tunnel whose configuration cannot be read is not started, with an error that names the
  -- file. Otherwise the first line of the configuration that routes to a port decides: with the port of
  -- the gateway the tunnel is started, with another one the start is refused with both ports, whatever
  -- the later lines are. If no line routes to a port the tunnel is started. Without a start the world
  -- stays as it was.
  pub start_tunnel-IsDecided : IsHandled
  start_tunnel-IsDecided = handled _ refl
