-- ===== src/Container/Tests.antt =====
-- The start of containers at concrete inputs.
use brain.Base.{List, ℕ, ◌^◌, ◌<◌, ◌≡◌, refl, String, none, some, true, false, [], ◌∷◌, arith}
use brain.Base.Fueled.{◌>>=◌, matched}
use brain.Base.Fueled.Triples.{Done}
use brain.Base.Result.{Result, ok}
use brain.Base.Text.{◌⧺◌, trim_end_matches}
use brain.Container.Begun.{IsBegun}
use brain.Container.Ensure.{
  default_settings, ensure_image, discover_ip, start_container, ports_ready, verify_rounds,
  verify_startup, ensure,
}
use brain.Container.Error.{ContainerError}
use brain.Container.Foreign.{ensure_mcp_container-Spares, ensure_plugin_mcp_container-Spares}
use brain.Container.Model.{garbage_collect_explicitly, ContainerConfig, discover_container_ip}
use brain.Container.PluginEnv.{named, plugin_env-named}
use brain.Container.Reached.{IsReached, verify_startup-Ends, ensure-IsReached}
use brain.Container.Samples.{
  World, port, host, env, before, startup, plugin, HasForeign, NotForeign, port-IsClock,
  port-IsGuarded,
}
use brain.Container.Scope.{as_bytes, fnv1a64, installation_scope_id}
use brain.Container.Scope.Digits.{size, read_hex, installation_scope_id-digits}
use brain.Container.Settings.{plugin_env, plugin_mcp_container_asset_mount, build_container_config}
use brain.Container.Startup.{ensure_mcp_container, ensure_plugin_mcp_container}

-- The published test vectors of the hash.
fnv_vectors :
    (fnv1a64 [] ≡ 0xcbf29ce484222325)
    × (fnv1a64 (as_bytes "a") ≡ 0xaf63dc4c8601ec8c)
    × (fnv1a64 (as_bytes "foobar") ≡ 0x85944171f73967e8)
unfolding fnv1a64
fnv_vectors = (refl, refl, refl)

ensure_mcp_container-Spares_example :
    Done
      (λ _. HasForeign)
      (λ _. HasForeign)
      (ensure_mcp_container env startup garbage_collect_explicitly "b3-1" before)
ensure_mcp_container-Spares_example =
    ensure_mcp_container-Spares env garbage_collect_explicitly "b3-1" HasForeign NotForeign startup
      port-IsClock port-IsGuarded before refl

ensure_plugin_mcp_container-Spares_example :
    Done
      (λ _. HasForeign)
      (λ _. HasForeign)
      (ensure_plugin_mcp_container env plugin "https://brain.example/" garbage_collect_explicitly
        "b3-1" before)
ensure_plugin_mcp_container-Spares_example =
    ensure_plugin_mcp_container-Spares env garbage_collect_explicitly "b3-1" HasForeign NotForeign
      plugin "https://brain.example/" port-IsClock port-IsGuarded (λ w h. h) before refl

verify_startup-Ends_example :
    (r : Result ContainerError Unit × World) × ((verify_startup port host default_settings "notes"
          (build_container_config env.platform startup "b3-1")
          none
          before
        ≡ some r)
      × (r.0 ≡ ok tt
          → IsReached port host "notes"
              (build_container_config env.platform startup "b3-1")
              none
              r.1))
verify_startup-Ends_example =
    verify_startup-Ends port host default_settings
      (build_container_config env.platform startup "b3-1") "notes" none port-IsClock (omega arith)
      before

-- Before the start the name is free.
abbrev cleared : World
cleared = record { clock = 7; notes = false; foreign = true }

-- A container with its own address.
abbrev isolated : ContainerConfig
isolated =
    build_container_config env.platform
      (record startup { isolation_strategy = some discover_container_ip }) "b3-1"

starts :
    ensure port host default_settings isolated cleared
    ≡ some (ok ("notes", some "192.168.64.3"), record { clock = 7; notes = true; foreign = true })
unfolding ensure ensure_image start_container discover_ip verify_startup verify_rounds ports_ready
    build_container_config ◌>>=◌ matched
starts = refl

ensure-IsReached_example :
    IsBegun port "notes" isolated (some "192.168.64.3") cleared
    × IsReached port host "notes" isolated
        (some "192.168.64.3")
        (record { clock = 7; notes = true; foreign = true })
ensure-IsReached_example =
    ensure-IsReached port host default_settings isolated cleared ("notes", some "192.168.64.3")
      (record { clock = 7; notes = true; foreign = true }) starts

abbrev scope_hash : ℕ
scope_hash = fnv1a64 (as_bytes "app_home=/home/me/.brain3\nenv_file=/home/me/.env")

installation_scope_id-digits_example :
    ((bytes : List ℕ) → fnv1a64 bytes < 2 ^ 64)
    × ((digits : String) × ((installation_scope_id (λ path. none) "/home/me/.brain3" "/home/me/.env"
            ≡ "b3-" ⧺ digits)
          × (size digits ≡ 16)
          × (read_hex 0 digits ≡ scope_hash)))
installation_scope_id-digits_example =
    installation_scope_id-digits (λ path. none) "/home/me/.brain3" "/home/me/.env"

plugin_env-named_example :
    named "PUBLIC_BASE_URL" (plugin_env plugin "https://brain.example/")
    ≡ ("PUBLIC_BASE_URL", trim_end_matches b'/' "https://brain.example/" ⧺ "/" ⧺ "notes") ∷ []
unfolding plugin_mcp_container_asset_mount
plugin_env-named_example = plugin_env-named plugin "https://brain.example/" "PUBLIC_BASE_URL"
