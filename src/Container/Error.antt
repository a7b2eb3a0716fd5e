-- ===== src/Container/Error.antt =====
-- `ContainerError` of crates/core/src/domain/errors.rs.
use brain.Base.{ℕ, ◌+◌, String, Option, none, some, Bool, true, false, List, map}
use brain.Base.Text.{◌⧺◌}
use brain.Base.Whitespace.{join}
use brain.Domain.Decimal.{decimal}
use brain.Container.Model.{ManagedContainerInfo}

-- An exit code: a number of 32 bits with a sign; `negative n` stands for `-n - 1`.
pub data ExitCode : Type 0 where
  exited negative : ℕ → ExitCode

pub data ContainerError : Type 0 where
  runtime_not_found image_not_found conflict unsupported_configuration : String → ContainerError
  command_failed : ExitCode → (stderr : String) → ContainerError
  spawn_failed : String → ContainerError
  startup_failed :
      (summary : String) → (logs : Option String) → (started_container : Bool) → ContainerError
  orphaned_managed_containers :
      (summary installation_id : String) → (containers : List ManagedContainerInfo) → ContainerError
  other : String → ContainerError

abbrev display_code : ExitCode → String
display_code (exited n) = decimal n
display_code (negative n) = "-" ⧺ decimal (n + 1)

-- `Display` of the error, and `summary`, which differ in nothing: the two cases that `summary` takes
-- apart are displayed as their summary.
unfoldable pub display : ContainerError → String
display (runtime_not_found s) = "container runtime not found: " ⧺ s
display (image_not_found s) = "image not found: " ⧺ s
display (conflict s) = "container conflict: " ⧺ s
display (unsupported_configuration s) = "unsupported container configuration: " ⧺ s
display (command_failed code stderr) = "command failed (exit " ⧺ display_code code ⧺ "): " ⧺ stderr
display (spawn_failed s) = "command could not be spawned: " ⧺ s
display (startup_failed text logs started) = text
display (orphaned_managed_containers text installation_id containers) = text
display (other s) = "container error: " ⧺ s

unfoldable pub summary : ContainerError → String
unfolding display
summary (startup_failed text logs started) = text
summary (orphaned_managed_containers text installation_id containers) = text
summary e = display e

unfoldable pub recent_logs : ContainerError → Option String
recent_logs (startup_failed text logs started) = logs
recent_logs e = none

unfoldable pub started_container : ContainerError → Bool
started_container (startup_failed text logs started) = started
started_container e = false

unfoldable pub requires_explicit_gc : ContainerError → Bool
requires_explicit_gc (orphaned_managed_containers text installation_id containers) = true
requires_explicit_gc e = false

unfoldable pub orphaned_containers : ContainerError → Option (List ManagedContainerInfo)
orphaned_containers (orphaned_managed_containers text installation_id containers) = some containers
orphaned_containers e = none

unfoldable pub orphaned_managed_containers_for_installation :
    String → List ManagedContainerInfo → ContainerError
orphaned_managed_containers_for_installation installation_id containers =
    orphaned_managed_containers
      ("Brain3 found managed MCP containers from this installation already present: "
        ⧺ join ", " (map (λ (c : ManagedContainerInfo). c.name ⧺ " (" ⧺ c.state ⧺ ")") containers))
      installation_id containers
