-- ===== src/Container/Spared.antt =====
-- What the start of a container leaves as it is.
use brain.Base.{ℕ, ◌<◌, ◌≡◌, String, Option, none, some, false, List, All}
use brain.Base.Optional.{is_some}
use brain.Base.Result.{Result, ok, err}
use brain.Container.Ensure.{
  StartupProbeSettings, fail_startup, ensure_image, discovered_ip, discover_ip, start_container,
  ensure, strategy_discovers,
}
use brain.Container.Error.{ContainerError}
use brain.Container.Kept.{
  Kept, Keeps, Keeps-bind, Keeps-pure, Keeps-throw, Keeps-lift, Keeps-await, Keeps-if,
  Keeps-learned, Keeps-matched, IsClock, keeps_rules,
}
use brain.Container.Model.{ContainerConfig, ManagedContainerInfo}
use brain.Container.Port.{ContainerId, ContainerPort, Host}
use brain.Container.Settings.{managed_container_scope}
use brain.Container.Verify.{fail_startup-Keeps, verify_startup-Keeps}

-- A claim `Inv` about the world that start-up may not break. It survives time, the calls that look,
-- and every call that runs, stops or removes a container of which `Free` holds; `Free` holds of the
-- names that the runtime does not have, and of those that it lists for the installation.
pub record IsGuarded {W : Type 0} (port : ContainerPort W) (host : Host W)
    (installation_id : String) (Inv : W → Type 0) (Free : String → Type 0) : Type 0 where
  pub kept : Kept port host Inv
  pub rests : (d : ℕ) (w : W) → Inv w → Inv (host.sleep d w)
  pub absent : (id : ContainerId) (w : W) → Inv w → (port.exists id w).0 ≡ ok false → Free id
  pub listed :
      (role : String) (w : W) (cs : List ManagedContainerInfo)
      → Inv w
      → (port.list_managed_containers (managed_container_scope installation_id role) w).0 ≡ ok cs
      → All (λ c. Free c.name) cs
  pub run :
      (config : ContainerConfig) (w : W) → Free config.name → Inv w → Inv (port.run config w).1
  pub stop : (id : ContainerId) (w : W) → Free id → Inv w → Inv (port.stop id w).1
  pub remove : (id : ContainerId) (w : W) → Free id → Inv w → Inv (port.remove id w).1

module _ {W : Type 0} (port : ContainerPort W) (host : Host W) (clock : IsClock port host)
    (installation_id : String) (Inv : W → Type 0) (Free : String → Type 0)
    (guarded : IsGuarded port host installation_id Inv Free) where
  module _ (settings : StartupProbeSettings) (config : ContainerConfig) where
    fails :
        {A : Type 0} (id : ContainerId) (text : String)
        → Keeps Inv (fail_startup port host settings {A = A} id text)
    fails = fail_startup-Keeps port host Inv guarded.kept settings

    ensure_image-Keeps : Keeps Inv (ensure_image port host settings config)
    unfolding ensure_image
    ensure_image-Keeps =
        search (keeps_rules, guarded.kept.image_exists, guarded.kept.pull_image) depth 12

    discovered_ip-Keeps :
        (id : ContainerId) (r : Result ContainerError (Option String))
        → Keeps Inv (discovered_ip port host settings id config r)
    discovered_ip-Keeps id (ok none) = fails id _
    discovered_ip-Keeps id (ok (some ip)) = Keeps-pure _
    discovered_ip-Keeps id (err e) = fails id _

    discover_ip-Keeps : (id : ContainerId) → Keeps Inv (discover_ip port host settings id config)
    unfolding discover_ip
    discover_ip-Keeps id =
        Keeps-if (strategy_discovers config.isolation_strategy) _ _
          (λ _.
            Keeps-matched (port.get_container_ip id) _ (guarded.kept.get_container_ip id)
              (discovered_ip-Keeps id))
          (λ _. Keeps-pure none)

    start_container-Keeps : Free config.name → Keeps Inv (start_container port host settings config)
    unfolding start_container
    start_container-Keeps free =
        Keeps-bind _ _
          (Keeps-if (is_some config.isolation_strategy) _ _
            (λ _. Keeps-lift (port.validate_internal_network_support config)) (λ _. Keeps-pure tt))
          λ _.
            Keeps-bind _ _ (Keeps-await _ (guarded.kept.ensure_network config.network_name _)) λ _.
              Keeps-bind _ _ (Keeps-await _ λ w. guarded.run config w free)
                λ id. Keeps-bind _ _ (discover_ip-Keeps id) λ ip. Keeps-pure _

    pub ensure-Keeps : 0 < settings.poll_interval → Keeps Inv (ensure port host settings config)
    unfolding ensure
    ensure-Keeps polls = Keeps-bind _ _ ensure_image-Keeps λ _.
        Keeps-learned (λ taken. taken ≡ false → Free config.name) _ _
          (guarded.kept.exists config.name)
          (λ w taken j e f. guarded.absent config.name w j (rw f at e))
          λ taken free.
            Keeps-if _ _ _ (λ _. Keeps-throw _)
              λ f. Keeps-bind _ _ (start_container-Keeps (free f)) λ started.
                Keeps-bind _ _
                  (verify_startup-Keeps port host settings clock Inv guarded.kept guarded.rests
                    polls _ config _)
                  (λ _. Keeps-pure _)
