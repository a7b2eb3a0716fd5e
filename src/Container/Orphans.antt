-- ===== src/Container/Orphans.antt =====
-- The containers that an earlier run has left, in crates/platform/src/container/startup.rs: the
-- clean-up of a plugin's own container and of the orphans of an installation. Times are in
-- milliseconds.
use brain.Base.{
  ℕ, zero, suc, ◌+◌, ◌/◌, String, none, Bool, true, false, ◌||◌, List, [], ◌∷◌, ◌==◌, any, leb,
  is_empty, if◌then◌else◌,
}
use brain.Base.Fueled.{Fueled, ◌>>=◌, ◌>>◌, pure, throw, await, matched}
use brain.Base.Result.{Result, ok, err}
use brain.Base.Text.{◌⧺◌}
use brain.Base.Whitespace.{contains}
use brain.Container.Ensure.{slept, now}
use brain.Container.Error.{
  ContainerError, command_failed, other, summary, orphaned_managed_containers_for_installation,
}
use brain.Container.Model.{
  ContainerRuntime, docker, macos_container, ManagedContainerInfo, PluginMcpContainerConfig,
  OrphanContainerPolicy, checks_for_orphans, gc_containers_enabled,
}
use brain.Container.Port.{ContainerId, ContainerPort, Host}
use brain.Container.Settings.{managed_container_scope}

abbrev pub gc_poll_interval : ℕ
gc_poll_interval = 200

abbrev pub gc_poll_timeout : ℕ
gc_poll_timeout = 5_000

-- The fuel of the loop: a round for each interval until the timeout, and one after it.
abbrev pub gc_rounds : ℕ
gc_rounds = suc (suc (gc_poll_timeout / gc_poll_interval))

unfoldable pub container_not_found_stderr : String → Bool
unfolding contains
container_not_found_stderr stderr =
    contains "No such container" stderr || contains "notFound" stderr || contains "not found" stderr

-- `Err(ContainerError::CommandFailed { ref stderr, .. }) if test(stderr)`
abbrev pub failed_with : (String → Bool) → ContainerError → Bool
failed_with test (command_failed code stderr) = test stderr
failed_with test e = false

abbrev pub failed_to : String → ContainerId → ContainerError → ContainerError
unfolding summary
failed_to what name error = other ("failed to " ⧺ what ⧺ " '" ⧺ name ⧺ "': " ⧺ summary error)

module _ {W : Type 0} (port : ContainerPort W) where
  -- A call that goes on where it succeeds, and ends without an error where the container is gone.
  abbrev pub unless_gone :
      (String → Bool)
      → (ContainerError → ContainerError)
      → Fueled W ContainerError Unit
      → Result ContainerError Unit
      → Fueled W ContainerError Unit
  unless_gone gone wrap rest (ok _) = rest
  unless_gone gone wrap rest (err e) = if failed_with gone e then pure tt else throw (wrap e)

  unfoldable pub remove_existing : ContainerId → Fueled W ContainerError Unit
  unfolding container_not_found_stderr
  remove_existing id = matched (port.remove id) (
      unless_gone container_not_found_stderr
        (failed_to "remove existing managed Plugin MCP Container" id) (pure tt))

  unfoldable pub stop_existing : ContainerId → Fueled W ContainerError Unit
  unfolding container_not_found_stderr
  stop_existing id = do
    running ← await (port.is_running id)
    (if running
        then matched (port.stop id) (
            unless_gone container_not_found_stderr
              (failed_to "stop existing managed Plugin MCP Container" id) (remove_existing id))
        else remove_existing id)

  unfoldable pub recreate_existing_managed_plugin_container_if_present :
      PluginMcpContainerConfig → String → String → Fueled W ContainerError Unit
  recreate_existing_managed_plugin_container_if_present plugin role installation_id = do
    there ← await (port.exists plugin.name)
    (if there
        then (do
          managed ←
              await (port.list_managed_containers (managed_container_scope installation_id role))
          (if any (λ (c : ManagedContainerInfo). c.name == plugin.name) managed
              then stop_existing plugin.name
              else pure tt))
        else pure tt)

module _ {W : Type 0} (port : ContainerPort W) (host : Host W) where
  -- The loop of `wait_for_container_gone`.
  unfoldable pub wait_rounds : ℕ → ContainerId → ℕ → Fueled W ContainerError Bool
  wait_rounds zero id deadline = λ w. none
  wait_rounds (suc rounds) id deadline =
      let again = wait_rounds rounds id deadline in
      (do
        there ← await (port.exists id)
        (if there
            then (do
              instant ← now host
              (if leb deadline instant then pure false else slept host gc_poll_interval >> again))
            else pure true))

  unfoldable pub wait_for_container_gone : ContainerId → Fueled W ContainerError Bool
  wait_for_container_gone id = do
    started_at ← now host
    wait_rounds gc_rounds id (started_at + gc_poll_timeout)

  abbrev pub no_such_container : String → Bool
  unfolding contains
  no_such_container stderr = contains "No such container" stderr

  abbrev pub gc_timed_out : ContainerId → ContainerError
  gc_timed_out id = other (
      "timed out waiting for Docker to remove container '" ⧺ id
      ⧺ "' via --rm; Docker daemon may be unhealthy")

  -- Docker removes a stopped container itself; elsewhere it is removed here.
  unfoldable pub gc_removal : ContainerRuntime → ContainerId → Fueled W ContainerError Unit
  gc_removal docker id = do
    gone ← wait_for_container_gone id
    (if gone then pure tt else throw (gc_timed_out id))
  gc_removal macos_container id = matched (port.remove id) (
      unless_gone port no_such_container (failed_to "remove managed orphan container" id) (pure tt))

  -- A round of the loop.
  unfoldable pub collect : ContainerRuntime → ManagedContainerInfo → Fueled W ContainerError Unit
  collect runtime container =
      if container.running
      then matched (port.stop container.name) (
          unless_gone port no_such_container
            (failed_to "stop managed orphan container" container.name)
            (gc_removal runtime container.name))
      else gc_removal runtime container.name

  unfoldable pub garbage_collect_managed_containers :
      ContainerRuntime → List ManagedContainerInfo → Fueled W ContainerError Unit
  garbage_collect_managed_containers runtime [] = pure tt
  garbage_collect_managed_containers runtime (c ∷ containers) =
      collect runtime c >> garbage_collect_managed_containers runtime containers

  unfoldable pub maybe_handle_managed_container_orphans :
      ContainerRuntime → String → OrphanContainerPolicy → String → Fueled W ContainerError Unit
  maybe_handle_managed_container_orphans runtime role policy installation_id =
      if checks_for_orphans policy
      then (do
        containers ←
            await (port.list_managed_containers (managed_container_scope installation_id role))
        (if is_empty containers
            then pure tt
            else (if gc_containers_enabled policy
                then garbage_collect_managed_containers runtime containers
                else throw
                    (orphaned_managed_containers_for_installation installation_id containers))))
      else pure tt
