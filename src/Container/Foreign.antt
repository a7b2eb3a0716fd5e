-- ===== src/Container/Foreign.antt =====
-- The start of the containers, and the containers that it does not own.
use brain.Base.{ℕ, String, Option, none, some, arith}
use brain.Base.Fueled.Triples.{Done}
use brain.Base.Io.{Io}
use brain.Base.Io
use brain.Base.Result.{Result, ok, err}
use brain.Container.Cleaned.{recreate-Keeps, orphans-Keeps}
use brain.Container.Ensure.{default_settings}
use brain.Container.Error.{ContainerError}
use brain.Container.Kept.{Keeps, Keeps-bind, Keeps-pure, Keeps-await, IsClock}
use brain.Container.Model.{ContainerStartupConfig, PluginMcpContainerConfig, OrphanContainerPolicy}
use brain.Container.Spared.{IsGuarded, ensure-Keeps}
use brain.Container.Startup.{
  Environment, given_or_picked, ensure_mcp_container, ensure_plugin_mcp_container,
  resolve_plugin_host_port,
}

renamed-world :
    {W E F A : Type 0} (Inv : W → Type 0) (f : E → F) (r : Result E A × W)
    → Inv r.1
    → Inv (Io.renamed f r).1
renamed-world Inv f (ok a, w) h = h
renamed-world Inv f (err e, w) h = h

given-keeps :
    {W : Type 0} (Inv : W → Type 0) (pick : Io W ContainerError ℕ) (port : Option ℕ) (w : W)
    → Inv w
    → Inv (pick w).1
    → Inv (given_or_picked pick port w).1
given-keeps Inv pick none w h k = k
given-keeps Inv pick (some port) w h k = h

module _ {W : Type 0} (env : Environment W) (policy : OrphanContainerPolicy)
    (installation_id : String) (Inv : W → Type 0) (Free : String → Type 0) where
  module _ (startup : ContainerStartupConfig)
      (clock : IsClock (env.container_port_for_runtime startup.runtime) env.host)
      (guarded : IsGuarded
        (env.container_port_for_runtime startup.runtime)
        env.host
        installation_id
        Inv
        Free) where
    mcp_container-Keeps : Keeps Inv (ensure_mcp_container env startup policy installation_id)
    unfolding ensure_mcp_container
    mcp_container-Keeps =
        Keeps-bind _ _
          (orphans-Keeps _ env.host clock installation_id Inv Free guarded startup.runtime _ policy)
          λ _.
            Keeps-bind _ _
              (ensure-Keeps _ env.host clock installation_id Inv Free guarded default_settings _
                (omega arith))
              (λ _. Keeps-pure _)

    -- The start of the main container comes to an end in every world, with a result or an error. On
    -- the way it runs, stops and removes only containers that the runtime says do not exist, or that
    -- it lists as managed by this installation: a claim about the world that no such call breaks,
    -- and that survives time and the calls that only look, holds afterwards if it held before. The
    -- clock must not go back, and a sleep must be as long as it says.
    pub ensure_mcp_container-Spares :
        (w : W)
        → Inv w
        → Done (λ _. Inv) (λ _. Inv) (ensure_mcp_container env startup policy installation_id w)
    ensure_mcp_container-Spares w h = mcp_container-Keeps.at w h

  module _ (plugin : PluginMcpContainerConfig) (public_origin : String)
      (clock : IsClock (env.container_port_for_runtime plugin.runtime) env.host)
      (guarded : IsGuarded
        (env.container_port_for_runtime plugin.runtime)
        env.host
        installation_id
        Inv
        Free)
      (picks : (w : W) → Inv w → Inv (env.pick_free_loopback_port w).1) where
    resolve-keeps : (w : W) → Inv w → Inv (resolve_plugin_host_port env plugin w).1
    unfolding resolve_plugin_host_port
    resolve-keeps w h = given-keeps Inv _ plugin.host_port w h (renamed-world Inv _ _ (picks w h))

    plugin_container-Keeps :
        Keeps Inv (ensure_plugin_mcp_container env plugin public_origin policy installation_id)
    unfolding ensure_plugin_mcp_container
    plugin_container-Keeps = Keeps-bind _ _ (Keeps-await _ resolve-keeps) λ host_port.
        Keeps-bind _ _ (recreate-Keeps _ env.host clock installation_id Inv Free guarded plugin _)
          λ _.
            Keeps-bind _ _
              (orphans-Keeps _ env.host clock installation_id Inv Free guarded plugin.runtime _
                policy)
              λ _.
                Keeps-bind _ _
                  (ensure-Keeps _ env.host clock installation_id Inv Free guarded default_settings _
                    (omega arith))
                  (λ _. Keeps-pure _)

    -- The start of a plugin's container also comes to an end in every world, and also spares every
    -- container that the runtime has and does not list as managed by this installation, the one that
    -- has the plugin's name included; the search for a free port must spare them too.
    pub ensure_plugin_mcp_container-Spares :
        (w : W)
        → Inv w
        → Done
            (λ _. Inv)
            (λ _. Inv)
            (ensure_plugin_mcp_container env plugin public_origin policy installation_id w)
    ensure_plugin_mcp_container-Spares w h = plugin_container-Keeps.at w h
