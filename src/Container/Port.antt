-- ===== src/Container/Port.antt =====
-- `ContainerPort` of crates/core/src/ports/container.rs, and the calls of the standard library and of
-- tokio by which start-up code waits and connects. `W` is the state of the outside world.
use brain.Base.{ℕ, String, Option, Bool, List}
use brain.Base.Io.{Io}
use brain.Base.Result.{Result}
use brain.Container.Error.{ContainerError}
use brain.Container.Model.{ContainerConfig, ManagedContainerInfo, ManagedContainerScope}

pub data NetworkPreparation : Type 0 where
  created reused : NetworkPreparation

-- `ContainerId`, a text of its own type in the source.
abbrev pub ContainerId : Type 0
ContainerId = String

pub record ContainerPort (W : Type 0) : Type 0 where
  pub image_exists : String → Io W ContainerError Bool
  pub pull_image : String → Io W ContainerError Unit
  pub exists : ContainerId → Io W ContainerError Bool
  pub is_running : ContainerId → Io W ContainerError Bool
  pub logs_tail : ContainerId → ℕ → Io W ContainerError String
  pub validate_internal_network_support : ContainerConfig → Result ContainerError Unit
  pub ensure_network : String → Bool → Io W ContainerError NetworkPreparation
  pub get_container_ip : ContainerId → Io W ContainerError (Option String)
  pub list_managed_containers :
      ManagedContainerScope → Io W ContainerError (List ManagedContainerInfo)
  pub run : ContainerConfig → Io W ContainerError ContainerId
  pub stop : ContainerId → Io W ContainerError Unit
  pub remove : ContainerId → Io W ContainerError Unit

-- `Instant::now` in milliseconds, `tokio::time::sleep`, `to_socket_addrs` (`none` where it fails) and
-- whether `TcpStream::connect_timeout` connects.
pub record Host (W : Type 0) : Type 0 where
  pub now : W → ℕ
  pub sleep : ℕ → W → W
  pub to_socket_addrs : String → ℕ → W → Option (List String) × W
  pub connect_timeout : String → W → Bool × W
