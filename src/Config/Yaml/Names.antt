-- ===== src/Config/Yaml/Names.antt =====
-- The names of the containers in brain3.yaml, and the mounts that they stand for.
use brain.Base.{◌≡◌, refl, String, Bool, false, List, [], ◌∷◌, ◌==◌, any, arith, if◌then◌else◌}
use brain.Base.Result.{Result, ok, err}
use brain.Base.Text.{text_eq_sound}
use brain.Config.Entry.{valid_name, valid_fields}
use brain.Config.Fields.{RawPluginMcpContainerConfig, System}
use brain.Config.Yaml.{
  insert_name, kept, validate_plugin_mcp_container, validate_entries,
  validate_plugin_mcp_containers,
}
use brain.Container.Model.{PluginMcpContainerConfig}

-- Whether the entry has a valid name that is this one, whatever its other fields are.
abbrev has_name : String → Result String String → Bool
has_name name (ok other) = other == name
has_name name (err reason) = false

abbrev pub claims : String → RawPluginMcpContainerConfig → Bool
claims name entry = has_name name (valid_name entry.name)

abbrev unless_claimed :
    System
    → List RawPluginMcpContainerConfig
    → RawPluginMcpContainerConfig
    → Result String String
    → Result String PluginMcpContainerConfig
unless_claimed system earlier entry (ok name) =
    if any (claims name) earlier then err "duplicate" else valid_fields system entry name
unless_claimed system earlier entry (err reason) = err reason

-- What the entries stand for without a set of names: each entry on its own, unless an entry before
-- it claims its name.
abbrev pub accepted :
    System
    → List RawPluginMcpContainerConfig
    → List RawPluginMcpContainerConfig
    → List PluginMcpContainerConfig
accepted system earlier [] = []
accepted system earlier (entry ∷ entries) =
    kept (unless_claimed system earlier entry (valid_name entry.name))
      (accepted system (entry ∷ earlier) entries)

module _ (system : System) where
  step-unless_claimed :
      (entry : RawPluginMcpContainerConfig) (earlier : List RawPluginMcpContainerConfig)
      (seen : List String) (rest rest' : List PluginMcpContainerConfig) (r : Result String String)
      → valid_name entry.name ≡ r
      → ((n : String) → any (λ s. s == n) seen ≡ any (claims n) earlier)
      → rest ≡ rest'
      → kept (validate_plugin_mcp_container system entry seen).0 rest
        ≡ kept (unless_claimed system earlier entry r) rest'
  unfolding validate_plugin_mcp_container insert_name
  step-unless_claimed entry earlier seen rest rest' (ok name) e same e' = ground (arith, same name)
  step-unless_claimed entry earlier seen rest rest' (err reason) e same e' = ground arith

  seen-claims :
      (entry : RawPluginMcpContainerConfig) (earlier : List RawPluginMcpContainerConfig)
      (seen : List String) (r : Result String String)
      → valid_name entry.name ≡ r
      → ((n : String) → any (λ s. s == n) seen ≡ any (claims n) earlier)
      → (n : String)
      → any (λ s. s == n) (validate_plugin_mcp_container system entry seen).1
        ≡ any (claims n) (entry ∷ earlier)
  unfolding validate_plugin_mcp_container insert_name
  seen-claims entry earlier seen (ok name) e same n =
      ground (arith, same name, same n, text_eq_sound name n)
  seen-claims entry earlier seen (err reason) e same n = ground (arith, same n)

  validate_entries-accepted :
      (entries earlier : List RawPluginMcpContainerConfig) (seen : List String)
      → ((n : String) → any (λ s. s == n) seen ≡ any (claims n) earlier)
      → validate_entries system entries seen ≡ accepted system earlier entries
  unfolding validate_entries
  validate_entries-accepted [] earlier seen same = refl
  validate_entries-accepted (entry ∷ entries) earlier seen same =
      step-unless_claimed entry earlier seen _ _ (valid_name entry.name) refl same (
        validate_entries-accepted entries (entry ∷ earlier) _
          (seen-claims entry earlier seen (valid_name entry.name) refl same))

  -- The validation of brain3.yaml accepts an entry exactly if the entry is valid on its own and no
  -- entry before it has the same valid name, the entries that are refused for another field included;
  -- and it keeps their order.
  pub validate-accepted :
      (entries : List RawPluginMcpContainerConfig)
      → validate_plugin_mcp_containers system entries ≡ accepted system [] entries
  unfolding validate_plugin_mcp_containers
  validate-accepted entries = validate_entries-accepted entries [] [] λ n. refl
