-- ===== src/Setup/Written.antt =====
-- What the gateway loads, in crates/platform/src/config/env_file.rs, from the variables that
-- crates/platform/src/setup/env_writer.rs writes.
use brain.Base.{
  ℕ, ◌≡◌, refl, String, Option, none, some, false, ◌||◌, List, ◌++◌, inl, inr, Bool-cases,
}
use brain.Base.Optional
use brain.Base.Result.{ok, err, bind-ok, ok-injective}
use brain.Base.Text.{
  is_empty, ◌⧺◌, trim_start_matches, trim_end_matches, strip_prefix, strip_suffix, lowercase_is,
}
use brain.Base.Whitespace.{trim}
use text.Mathlib.TextLemmas.{nil-append, cons-append}
use brain.Config.EnvFile.{Process, path_join, is_enabled, env_var_or, env_bool}
use brain.Config.EnvFile.Hosts
use brain.Config.EnvFile.Hosts.{
  TunnelConfig, normalize_hostname, normalized, named_tunnel_host, direct_public_origin_hostname,
  quick_explicit, resolve_expected_host, config_file_of, load_tunnel_config,
}
use brain.Setup.Model.{
  SetupPaths, TunnelModeDraft, disabled, cloudflare_quick, cloudflare_named, direct_public_origin,
  SetupDraftConfig,
}
use brain.Setup.Writer.{
  draft_values, tunnel_values, tunnel_entries, direct_hostname, build_overrides, override,
}

-- The process after the file has been read.
abbrev pub reading : Process → List (String × String) → Process
reading process values = record process { var = override values }

-- The names of the draft are more than white space and dots.
abbrev pub HasNames : Process → SetupDraftConfig → TunnelModeDraft → Type 0
HasNames process draft disabled = Unit
HasNames process draft cloudflare_quick = Unit
HasNames process draft (cloudflare_named tunnel_name domain) =
    (is_empty (normalize_hostname process tunnel_name) ≡ false)
    × (is_empty (normalize_hostname process domain) ≡ false)
HasNames process draft (direct_public_origin hostname) =
    is_empty (normalize_hostname process (direct_hostname draft hostname)) ≡ false

-- The host that is expected and the tunnel, for each mode of the draft.
abbrev pub expected_for : Process → SetupDraftConfig → TunnelModeDraft → Option String
expected_for process draft disabled = none
expected_for process draft cloudflare_quick = none
expected_for process draft (cloudflare_named tunnel_name domain) =
    some (normalize_hostname process tunnel_name ⧺ "." ⧺ normalize_hostname process domain)
expected_for process draft (direct_public_origin hostname) =
    some (normalize_hostname process (direct_hostname draft hostname))

abbrev pub tunnel_for : Process → SetupPaths → ℕ → TunnelModeDraft → Option TunnelConfig
tunnel_for process paths port disabled = none
tunnel_for process paths port cloudflare_quick = some (Hosts.cloudflare_quick port)
tunnel_for process paths port (cloudflare_named tunnel_name domain) = some (
    Hosts.cloudflare_named (normalize_hostname process tunnel_name)
      (normalize_hostname process domain) (path_join paths.cloudflared_dir (tunnel_name ⧺ ".yml"))
      port)
tunnel_for process paths port (direct_public_origin hostname) = none

err-ok : {E A : Type 0} {e : E} {a : A} → err e ≡ ok a → ⊥
err-ok h = cc

is_empty-append : (s t : String) → is_empty t ≡ false → is_empty (s ⧺ t) ≡ false
is_empty-append String.[] t h = rw nil-append h
is_empty-append (String.◌∷◌ c s) t h = rw cons-append refl

path_join-not_empty :
    (root path : String) → is_empty path ≡ false → is_empty (path_join root path) ≡ false
path_join-not_empty root path h = elim (Bool-cases (Optional.is_some (strip_prefix "/" path))) [
  | inl absolute ↦ rw absolute h
  | inr relative ↦ elim (Bool-cases (is_empty root || Optional.is_some (strip_suffix "/" root))) [
    | inl joined ↦ rw (relative, joined) (is_empty-append root path h)
    | inr separate ↦
        rw (relative, separate) (is_empty-append root ("/" ⧺ path) (rw (cons-append) refl))
  ]
]

module _ (process : Process) (lower : process.to_lowercase "" ≡ "") (draft : SetupDraftConfig) where
  abbrev of_entries : (quick tunnel_name domain config_file hostname : String) → Process
  of_entries quick tunnel_name domain config_file hostname =
      reading process
        (draft_values draft ++ tunnel_entries quick tunnel_name domain config_file hostname)

  blank : normalize_hostname process "" ≡ ""
  unfolding normalize_hostname trim trim_start_matches trim_end_matches
  blank = lower

  module _ (quick tunnel_name domain config_file hostname : String) where
    abbrev read : Process
    read = of_entries quick tunnel_name domain config_file hostname

    read_name : normalized read "B3_CF_TUNNEL_NAME" ≡ normalize_hostname process tunnel_name
    unfolding normalized env_var_or normalize_hostname draft_values
    read_name = refl

    read_domain : normalized read "B3_CF_DOMAIN" ≡ normalize_hostname process domain
    unfolding normalized env_var_or normalize_hostname draft_values
    read_domain = refl

    read_direct :
        normalized read "B3_DIRECT_PUBLIC_ORIGIN_HOSTNAME" ≡ normalize_hostname process hostname
    unfolding normalized env_var_or normalize_hostname draft_values
    read_direct = refl

    read_quick : quick_explicit read ≡ is_enabled quick
    unfolding quick_explicit draft_values
    read_quick = refl

    read_file : env_var_or read "B3_CF_TUNNEL_CONFIG_FILE" "" ≡ config_file
    unfolding env_var_or draft_values
    read_file = refl

    slow : is_enabled quick ≡ false → quick_explicit read ≡ false
    slow off = rw read_quick off

  abbrev Reads : Process → ℕ → Option String → Option TunnelConfig → Type 0
  Reads p port host tunnel =
      (resolve_expected_host p ≡ ok host) × (load_tunnel_config p port ≡ ok tunnel)

  disabled-Reads : (port : ℕ) → Reads (of_entries "false" "" "" "" "") port none none
  unfolding resolve_expected_host load_tunnel_config named_tunnel_host is_enabled
      direct_public_origin_hostname env_bool quick_explicit draft_values trim lowercase_is
  disabled-Reads port = (
    rw (read_name "false" "" "" "" "", read_direct "false" "" "" "" "", blank) refl,
    rw (read_name "false" "" "" "" "", blank) refl,
  )

  quick-Reads :
      (port : ℕ)
      → Reads (of_entries "true" "" "" "" "") port none (some (Hosts.cloudflare_quick port))
  unfolding resolve_expected_host load_tunnel_config quick_explicit draft_values is_enabled trim
      lowercase_is
  quick-Reads port = (refl, refl)

  direct-Reads :
      (hostname : String) (port : ℕ)
      → is_empty (normalize_hostname process hostname) ≡ false
      → Reads
          (of_entries "false" "" "" "" hostname)
          port
          (some (normalize_hostname process hostname))
          none
  unfolding resolve_expected_host load_tunnel_config named_tunnel_host is_enabled
      direct_public_origin_hostname env_bool quick_explicit draft_values trim lowercase_is
  direct-Reads hostname port given = (
    rw (read_name "false" "" "" "" hostname, read_direct "false" "" "" "" hostname, blank, given)
        refl,
    rw (read_name "false" "" "" "" hostname, blank) refl,
  )

  named-Reads :
      (tunnel_name domain file : String) (port : ℕ)
      → is_empty (normalize_hostname process tunnel_name) ≡ false
      → is_empty (normalize_hostname process domain) ≡ false
      → is_empty file ≡ false
      → Reads
          (of_entries "false" tunnel_name domain file "")
          port
          (some (normalize_hostname process tunnel_name ⧺ "." ⧺ normalize_hostname process domain))
          (some (
            Hosts.cloudflare_named
              (normalize_hostname process tunnel_name)
              (normalize_hostname process domain)
              file
              port))
  unfolding resolve_expected_host load_tunnel_config named_tunnel_host is_enabled config_file_of
      direct_public_origin_hostname env_bool quick_explicit draft_values trim lowercase_is
  named-Reads tunnel_name domain file port name host there = (
    rw
        (
          read_name "false" tunnel_name domain file "",
          read_domain "false" tunnel_name domain file "",
          read_direct "false" tunnel_name domain file "",
          blank,
          name,
          host,
        )
        refl,
    rw
        (
          read_name "false" tunnel_name domain file "",
          read_domain "false" tunnel_name domain file "",
          name,
          host,
          read_file "false" tunnel_name domain file "",
          there,
        )
        refl,
  )

module _ (process : Process) (lower : process.to_lowercase "" ≡ "") (draft : SetupDraftConfig)
    (paths : SetupPaths) (port : ℕ) where
  values-Reads :
      (mode : TunnelModeDraft) (values : List (String × String))
      → tunnel_values draft paths mode ≡ ok values
      → HasNames process draft mode
      → Reads process lower draft
          (reading process (draft_values draft ++ values))
          port
          (expected_for process draft mode)
          (tunnel_for process paths port mode)
  unfolding tunnel_values
  values-Reads disabled values h names =
      rw (← ok-injective h) (disabled-Reads process lower draft port)
  values-Reads cloudflare_quick values h names =
      rw (← ok-injective h) (quick-Reads process lower draft port)
  values-Reads (cloudflare_named tunnel_name domain) values h names =
      elim (Bool-cases (is_empty (trim tunnel_name) || is_empty (trim domain))) [
        | inl refused ↦ absurd (err-ok (rw refused at h))
        | inr passed ↦ rw (← ok-injective (rw passed at h)) (
            named-Reads process lower draft tunnel_name domain
              (path_join paths.cloudflared_dir (tunnel_name ⧺ ".yml")) port names.0 names.1
              (path_join-not_empty paths.cloudflared_dir (tunnel_name ⧺ ".yml")
                (is_empty-append tunnel_name ".yml" refl)))
      ]
  values-Reads (direct_public_origin hostname) values h names =
      elim (Bool-cases (is_empty (trim (direct_hostname draft hostname)))) [
        | inl refused ↦ absurd (err-ok (rw refused at h))
        | inr passed ↦
            rw (← ok-injective (rw passed at h))
              (direct-Reads process lower draft (direct_hostname draft hostname) port names)
      ]

  -- If the overrides of a draft are built, and its names are more than white space and dots, the
  -- gateway loads from them the tunnel that the draft asks for, and expects the host of that tunnel:
  -- none without a public host and for a quick tunnel, the name and the domain in lower case for a
  -- named one, whose file is in the directory of the wizard, and that of the direct origin.
  pub build_overrides-Reads :
      (values : List (String × String))
      → build_overrides draft paths ≡ ok values
      → HasNames process draft draft.tunnel_mode
      → (resolve_expected_host (reading process values)
          ≡ ok (expected_for process draft draft.tunnel_mode))
        × (load_tunnel_config (reading process values) port
            ≡ ok (tunnel_for process paths port draft.tunnel_mode))
  unfolding build_overrides
  build_overrides-Reads values h names =
      let (tunnel, (built, same)) =
        bind-ok (tunnel_values draft paths draft.tunnel_mode) _ values h in
      rw (← ok-injective same) (values-Reads draft.tunnel_mode tunnel built names)
