-- ===== src/Tunnel/Tests.antt =====
-- The start of a tunnel at a concrete file.
use brain.Base.{◌≡◌, refl, ℕ, String}
use brain.Base.Result.{ok, err}
use brain.Config.EnvFile.Hosts.{cloudflare_named}
use brain.Tunnel.Laws.{IsHandled, start_tunnel-IsDecided}
use brain.Tunnel.{Tunnels, port_mismatch, start_tunnel}

abbrev tunnels : String → Tunnels ℕ ℕ
tunnels content = record {
  read_to_string = λ path w. ok content;
  start_quick = λ port pid_file w. (ok port, w);
  start_named = λ name domain config pid_file w. (ok 1, w);
}

starts_matching_tunnel :
    start_tunnel
      (tunnels "ingress:\n  - hostname: a.b\n    service: http://127.0.0.1:2763/mcp\n")
      (cloudflare_named "a" "b" "/c.yml" 2763)
      "/pid"
      0
    ≡ (ok 1, 0)
unfolding start_tunnel
starts_matching_tunnel = refl

-- A later rule for the gateway's port does not help.
refuses_second_rule :
    start_tunnel
      (tunnels "service: http://localhost:80\nservice: http://localhost:2763\n")
      (cloudflare_named "a" "b" "/c.yml" 2763)
      "/pid"
      0
    ≡ (err (port_mismatch 80 2763 "/c.yml"), 0)
unfolding start_tunnel
refuses_second_rule = refl

start_tunnel-IsDecided_example :
    IsHandled
      (tunnels "service: http://localhost:80\nservice: http://localhost:2763\n")
      "a"
      "b"
      "/c.yml"
      2763
      "/pid"
      0
start_tunnel-IsDecided_example =
    start_tunnel-IsDecided
      (tunnels "service: http://localhost:80\nservice: http://localhost:2763\n") "a" "b" "/c.yml"
      2763 "/pid" 0
