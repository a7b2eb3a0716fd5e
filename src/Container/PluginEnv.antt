-- ===== src/Container/PluginEnv.antt =====
-- The variables of a plugin's container, by their names.
use mathlib.Core.List.{append-nil}
use brain.Base.{
  ◌≡◌, refl, String, not, List, [], ◌∷◌, ◌++◌, ◌==◌, keep, arith, eq_iff, inl, inr, Bool-cases,
  if◌then◌else◌,
}
use brain.Container.Model.{PluginMcpContainerConfig}
use brain.Container.Settings.{plugin_env, public_base_url, plugin_mcp_container_asset_mount}
use brain.Base.Text.{◌⧺◌, trim_end_matches}

-- The variables of a name.
abbrev pub named : String → List (String × String) → List (String × String)
named key vars = keep (λ (v : String × String). v.0 == key) vars

named-append :
    (key : String) (xs ys : List (String × String))
    → named key (xs ++ ys) ≡ named key xs ++ named key ys
named-append key [] ys = refl
named-append key (x ∷ xs) ys = elim (Bool-cases (x.0 == key)) [
  | inl same ↦ rw (same, named-append key xs ys)
  | inr other ↦ rw (other, named-append key xs ys)
]

named-without :
    (key name : String) (xs : List (String × String))
    → named key (keep (λ (v : String × String). not (v.0 == name)) xs)
      ≡ (if key == name then [] else named key xs)
named-without key name [] = ground arith
named-without key name (x ∷ xs) =
    ground (arith, named-without key name xs, eq_iff x.0 key, eq_iff x.0 name, eq_iff key name)

-- In the container of a plugin the variable PUBLIC_BASE_URL stands exactly once, with the public
-- origin up to its last slashes and the mount of the plugin below it, whatever the plugin's own configuration says of it; every other variable
-- stands as the configuration has it.
pub plugin_env-named :
    (plugin : PluginMcpContainerConfig) (public_origin key : String)
    → named key (plugin_env plugin public_origin) ≡ (
        if key == "PUBLIC_BASE_URL"
        then (
          "PUBLIC_BASE_URL",
          trim_end_matches b'/' public_origin ⧺ "/" ⧺ plugin_mcp_container_asset_mount plugin.name,
        )
          ∷ []
        else named key plugin.env)
unfolding plugin_env public_base_url
plugin_env-named plugin public_origin key =
    rw (named-append, named-without key "PUBLIC_BASE_URL" plugin.env)
      (ground (
        arith,
        eq_iff key "PUBLIC_BASE_URL",
        eq_iff "PUBLIC_BASE_URL" key,
        append-nil (named key plugin.env),
      ))
