-- ===== src/Config/EnvFile/Hosted.antt =====
-- The host that is expected and the tunnel, in crates/platform/src/config/env_file.rs.
use brain.Base.{
  ℕ, ◌≡◌, refl, sym, String, Option, none, some, Bool, true, false, not, ◌&&◌, inl, inr, Bool-cases,
  arith,
}
use brain.Base.Result.{ok, bind-ok, ok-injective}
use brain.Base.Text.{is_empty, ◌⧺◌}
use brain.Config.EnvFile.{Process, env_bool}
use brain.Config.EnvFile.Hosts.{
  TunnelConfig, cloudflare_quick, cloudflare_named, normalized, named_tunnel_host, quick_explicit,
  direct_public_origin_hostname, one_of, resolve_expected_host, config_file_of, load_tunnel_config,
}

-- The host that requests are checked against is the host that the tunnel serves: none that is known
-- for a quick tunnel, which is there when it is asked for and only then, the tunnel's own for a named
-- one, and that of the direct origin without a tunnel.
abbrev pub IsServed : Process → ℕ → Bool → Option TunnelConfig → Option String → Type 0
IsServed process port true tunnel host = (tunnel ≡ some (cloudflare_quick port)) × (host ≡ none)
IsServed process port false none host = host ≡ direct_public_origin_hostname process
IsServed process port false (some (cloudflare_quick local_port)) host = ⊥
IsServed process port false (some (cloudflare_named tunnel_name domain file local_port)) host =
    (host ≡ some (tunnel_name ⧺ "." ⧺ domain))
    × (is_empty tunnel_name ≡ false)
    × (is_empty domain ≡ false)
    × (direct_public_origin_hostname process ≡ none)
    × (local_port ≡ port)

abbrev pub IsHosted : Process → ℕ → Option TunnelConfig → Option String → Type 0
IsHosted process port tunnel host = IsServed process port (quick_explicit process) tunnel host

one_of-some :
    (named : String) (direct host : Option String)
    → one_of (some named) direct ≡ ok host
    → (host ≡ some named) × (direct ≡ none)
one_of-some named none host h = (sym (ok-injective h), refl)
one_of-some named (some direct) host h = absurd (ground arith)

module _ (process : Process) (port : ℕ) where
  quick-IsHosted :
      (host : Option String) (tunnel : Option TunnelConfig)
      → quick_explicit process ≡ true
      → resolve_expected_host process ≡ ok host
      → load_tunnel_config process port ≡ ok tunnel
      → IsHosted process port tunnel host
  unfolding resolve_expected_host load_tunnel_config
  quick-IsHosted host tunnel quick h t =
      let h' = rw quick at h in
      let t' = rw quick at t in rw (quick, ← ok-injective h', ← ok-injective t') (refl, refl)

  named-IsHosted :
      (host : Option String) (tunnel : Option TunnelConfig)
      → quick_explicit process ≡ false
      → is_empty (normalized process "B3_CF_TUNNEL_NAME") ≡ false
      → is_empty (normalized process "B3_CF_DOMAIN") ≡ false
      → resolve_expected_host process ≡ ok host
      → load_tunnel_config process port ≡ ok tunnel
      → IsHosted process port tunnel host
  unfolding resolve_expected_host load_tunnel_config named_tunnel_host
  named-IsHosted host tunnel quick name domain h t =
      let h' = rw (quick, name, domain) at h in
      let t' = rw (quick, name, domain) at t in
      let (file, (_, same)) =
        bind-ok (config_file_of process (normalized process "B3_CF_TUNNEL_NAME")) _ tunnel t' in
      let (served, undirected) = one_of-some _ (direct_public_origin_hostname process) host h' in
      rw (quick, ← ok-injective same) (served, name, domain, undirected, refl)

  untunneled-IsHosted :
      (host : Option String) (tunnel : Option TunnelConfig)
      → quick_explicit process ≡ false
      → named_tunnel_host process ≡ none
      → (not (is_empty (normalized process "B3_CF_TUNNEL_NAME"))
          && not (is_empty (normalized process "B3_CF_DOMAIN")))
        ≡ false
      → resolve_expected_host process ≡ ok host
      → load_tunnel_config process port ≡ ok tunnel
      → IsHosted process port tunnel host
  unfolding resolve_expected_host load_tunnel_config env_bool quick_explicit
  untunneled-IsHosted host tunnel quick unnamed untunneled h t =
      let h' = rw (quick, unnamed) at h in
      let t' = rw (quick, untunneled) at t in rw (quick, ← ok-injective t') (sym (ok-injective h'))

  pub tunnel-IsHosted :
      (host : Option String) (tunnel : Option TunnelConfig)
      → resolve_expected_host process ≡ ok host
      → load_tunnel_config process port ≡ ok tunnel
      → IsHosted process port tunnel host
  unfolding named_tunnel_host
  tunnel-IsHosted host tunnel h t = elim (Bool-cases (quick_explicit process)) [
    | inl quick ↦ quick-IsHosted host tunnel quick h t
    | inr slow ↦ elim (Bool-cases (is_empty (normalized process "B3_CF_TUNNEL_NAME"))) [
      | inl unnamed ↦ untunneled-IsHosted host tunnel slow (rw unnamed refl) (rw unnamed refl) h t
      | inr name ↦ elim (Bool-cases (is_empty (normalized process "B3_CF_DOMAIN"))) [
        | inl undomained ↦
            untunneled-IsHosted host tunnel slow (rw (name, undomained) refl)
              (rw (name, undomained) refl) h t
        | inr domain ↦ named-IsHosted host tunnel slow name domain h t
      ]
    ]
  ]
