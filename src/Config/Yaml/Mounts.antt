-- ===== src/Config/Yaml/Mounts.antt =====
-- The configurations of brain3.yaml together: their names, and the mounts of their assets.
use Prim.Native.Char.{Char, code}
use brain.Base.{
  ◌≡◌, ◌≢◌, refl, ap, sym, String, none, some, Option, true, false, List, [], ◌∷◌, ◌==◌, All,
  All-map, All-both, any, arith, eq_iff, nat_eq, inl, inr, Bool-cases,
}
use brain.Base.Result.{Result, ok, err}
use brain.Base.Text.{char_eq→eq}
use brain.Config.Entry.{valid_name, valid_fields}
use brain.Config.Entry.Checked.{IsName, IsChecked, valid_name-IsName, valid_fields-IsChecked}
use brain.Config.Fields.{RawPluginMcpContainerConfig, System, all_chars, is_name_char}
use brain.Config.Yaml.{
  insert_name, kept, parsed, read, validate_plugin_mcp_container, validate_entries,
  load_plugin_mcp_containers_config, validate_plugin_mcp_containers,
}
use brain.Container.Model.{PluginMcpContainerConfig}
use brain.Container.Settings.{plugin_mcp_container_asset_mount}

-- No two elements have the same text.
abbrev pub Distinct {ℓ} : {A : Type ℓ} → (A → String) → List A → Type ℓ
Distinct text [] = Unit
Distinct text (x ∷ xs) = All (λ y. text y ≢ text x) xs × Distinct text xs

module _ (system : System) where
  -- What an accepted configuration is, given the names before it.
  abbrev Fresh : List String → PluginMcpContainerConfig → Type 0
  Fresh seen config =
      (any (λ s. s == config.name) seen ≡ false) × IsName config.name × IsChecked system config

  step-Fresh :
      (entry : RawPluginMcpContainerConfig) (seen : List String) (config : PluginMcpContainerConfig)
      (r : Result String String)
      → valid_name entry.name ≡ r
      → (validate_plugin_mcp_container system entry seen).0 ≡ ok config
      → Fresh seen config
        × ((validate_plugin_mcp_container system entry seen).1 ≡ config.name ∷ seen)
  unfolding validate_plugin_mcp_container insert_name
  step-Fresh entry seen config (err reason) e h = absurd (ground arith)
  step-Fresh entry seen config (ok name) e h = elim (Bool-cases (any (λ s. s == name) seen)) [
    | inl there ↦ absurd (ground arith)
    | inr fresh ↦
        let fields : valid_fields system entry name ≡ ok config = ground arith in
        let (same, checked) = valid_fields-IsChecked system entry name config fields in
        (
          (rw same fresh, rw same (valid_name-IsName entry.name name e), checked),
          rw same (ground arith),
        )
  ]

  seen-grows :
      (entry : RawPluginMcpContainerConfig) (seen : List String) (n : String)
      → any (λ s. s == n) (validate_plugin_mcp_container system entry seen).1 ≡ false
      → any (λ s. s == n) seen ≡ false
  unfolding validate_plugin_mcp_container insert_name
  seen-grows entry seen n h = ground arith

  Fresh-grows :
      (entry : RawPluginMcpContainerConfig) (seen : List String)
      (configs : List PluginMcpContainerConfig)
      → All (Fresh (validate_plugin_mcp_container system entry seen).1) configs
      → All (Fresh seen) configs
  Fresh-grows entry seen configs =
      All-map _ _ configs λ c f. (seen-grows entry seen c.name f.0, f.1, f.2)

  kept-Fresh :
      (entry : RawPluginMcpContainerConfig) (seen : List String)
      (r : Result String PluginMcpContainerConfig) (rest : List PluginMcpContainerConfig)
      → (validate_plugin_mcp_container system entry seen).0 ≡ r
      → All (Fresh (validate_plugin_mcp_container system entry seen).1) rest
        × Distinct (λ (c : PluginMcpContainerConfig). c.name) rest
      → All (Fresh seen) (kept r rest)
        × Distinct (λ (c : PluginMcpContainerConfig). c.name) (kept r rest)
  kept-Fresh entry seen (err reason) rest e h = (Fresh-grows entry seen rest h.0, h.1)
  kept-Fresh entry seen (ok config) rest e h =
      let (fresh, grown) = step-Fresh entry seen config (valid_name entry.name) refl e in
      (
        (fresh, Fresh-grows entry seen rest h.0),
        (
          All-map _ _ rest
              (λ c f same.
                let others = rw grown at f.0 in ground (arith, eq_iff config.name c.name))
              h.0,
          h.1,
        ),
      )

  validate_entries-Fresh :
      (entries : List RawPluginMcpContainerConfig) (seen : List String)
      → All (Fresh seen) (validate_entries system entries seen)
        × Distinct (λ (c : PluginMcpContainerConfig). c.name) (validate_entries system entries seen)
  unfolding validate_entries
  validate_entries-Fresh [] seen = (tt, tt)
  validate_entries-Fresh (entry ∷ entries) seen =
      kept-Fresh entry seen _ _ refl (validate_entries-Fresh entries _)

-- A dash is not a character of a name.
dash-absurd : (d : Char) (t : String) → "-" ≡ d → all_chars is_name_char (String.◌∷◌ d t) ≡ true → ⊥
dash-absurd d t e h = let here : code d ≡ b'-' = ap code (sym e) in ground arith

mount-injective :
    (s t : String)
    → all_chars is_name_char s ≡ true
    → all_chars is_name_char t ≡ true
    → plugin_mcp_container_asset_mount s ≡ plugin_mcp_container_asset_mount t
    → s ≡ t
unfolding plugin_mcp_container_asset_mount
mount-injective String.[] String.[] hs ht e = refl
mount-injective String.[] (String.◌∷◌ d t) hs ht e = elim (Bool-cases (nat_eq (code d) b'_')) [
  | inl under ↦ let e' = rw under at e in cc
  | inr other ↦ let e' = rw other at e in cc
]
mount-injective (String.◌∷◌ c s) String.[] hs ht e = elim (Bool-cases (nat_eq (code c) b'_')) [
  | inl under ↦ let e' = rw under at e in cc
  | inr other ↦ let e' = rw other at e in cc
]
mount-injective (String.◌∷◌ c s) (String.◌∷◌ d t) hs ht e =
    elim (Bool-cases (nat_eq (code c) b'_')) [
      | inl under ↦ elim (Bool-cases (nat_eq (code d) b'_')) [
        | inl under' ↦
            let e' = rw under at (rw under' at e) in
            let tails : plugin_mcp_container_asset_mount s ≡ plugin_mcp_container_asset_mount t =
              cc in
            let heads : c ≡ d = char_eq→eq c d (ground arith) in
            rw (heads, mount-injective s t (ground arith) (ground arith) tails)
        | inr other' ↦ let e' = rw under at (rw other' at e) in absurd (dash-absurd d t (cc) ht)
      ]
      | inr other ↦ elim (Bool-cases (nat_eq (code d) b'_')) [
        | inl under' ↦ let e' = rw other at (rw under' at e) in absurd (dash-absurd c s (cc) hs)
        | inr other' ↦
            let e' = rw other at (rw other' at e) in
            let tails : plugin_mcp_container_asset_mount s ≡ plugin_mcp_container_asset_mount t =
              cc in
            let heads : c ≡ d = cc in
            rw (heads, mount-injective s t (ground arith) (ground arith) tails)
      ]
    ]

abbrev pub mount_of : PluginMcpContainerConfig → String
mount_of config = plugin_mcp_container_asset_mount config.name

mounts-Distinct :
    (configs : List PluginMcpContainerConfig)
    → All (λ c. IsName c.name) configs
    → Distinct (λ (c : PluginMcpContainerConfig). c.name) configs
    → Distinct mount_of configs
mounts-Distinct [] names distinct = tt
mounts-Distinct (c ∷ configs) names distinct = (
  All-map _ _ configs
      (λ other both same.
        both.0 (mount-injective other.name c.name both.1.chars names.0.chars same))
      (All-both _ _ configs distinct.0 names.1),
  mounts-Distinct configs names.1 distinct.1,
)

module _ (system : System) where
  -- What holds of all configurations of a file.
  abbrev pub AreUsable : List PluginMcpContainerConfig → Type 0
  AreUsable configs =
      All (λ c. IsName c.name × IsChecked system c) configs × Distinct mount_of configs

  entries-AreUsable :
      (entries : List RawPluginMcpContainerConfig)
      → AreUsable (validate_plugin_mcp_containers system entries)
  unfolding validate_plugin_mcp_containers
  entries-AreUsable entries =
      let (fresh, distinct) = validate_entries-Fresh system entries [] in
      (
        All-map _ _ (validate_entries system entries []) (λ c f. (f.1, f.2)) fresh,
        mounts-Distinct (validate_entries system entries [])
            (All-map _ _ (validate_entries system entries []) (λ c f. f.1) fresh) distinct,
      )

  -- Whatever brain3.yaml holds, and whether or not it can be read, the configurations that are
  -- loaded have names of the allowed characters whose mounts are not the gateway's own, no two have
  -- the same mount, and each has a network name and variable names of the allowed form, a host
  -- directory that is a directory, a secret file that is a file and can be opened where it has one,
  -- and no network isolation under Docker on macOS.
  pub load_plugin_mcp_containers_config-AreUsable :
      (path : String) → AreUsable (load_plugin_mcp_containers_config system path)
  unfolding load_plugin_mcp_containers_config
  load_plugin_mcp_containers_config-AreUsable path = loaded (system.read_to_string path)
    where
      parse : (r : Result String (List RawPluginMcpContainerConfig)) → AreUsable (parsed system r)
      parse (ok entries) = entries-AreUsable entries
      parse (err e) = (tt, tt)

      loaded : (r : Result String (Option String)) → AreUsable (read system r)
      loaded (ok (some contents)) = parse (system.from_str contents)
      loaded (ok none) = (tt, tt)
      loaded (err e) = (tt, tt)
