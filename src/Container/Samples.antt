-- ===== src/Container/Samples.antt =====
-- A host with two containers for the tests: `notes`, which the installation manages, and `foreign`,
-- which it does not.
use brain.Base.{
  ℕ, ◌+◌, ◌≤◌, ◌≡◌, ◌≢◌, String, none, some, Bool, true, false, List, [], ◌∷◌, ◌==◌, All, arith,
  eq_iff, if◌then◌else◌,
}
use brain.Base.Result.{ok, ok-injective}
use brain.Container.Kept.{Kept, IsClock}
use brain.Container.Model.{
  docker, macos_container, publish_to_loopback, no_auth, ContainerStartupConfig,
  PluginMcpContainerConfig, ManagedContainerInfo,
}
use brain.Container.Port.{ContainerPort, Host, reused}
use brain.Container.Spared.{IsGuarded}
use brain.Container.Startup.{Environment}

pub record World : Type 0 where
  pub clock : ℕ
  pub notes : Bool
  pub foreign : Bool

-- Whether a container is there, and a host on which it is as the Boolean says.
abbrev present : String → World → Bool
present id w = if id == "foreign" then w.foreign else w.notes

abbrev put : String → Bool → World → World
put id there w =
    if id == "foreign"
    then record { clock = w.clock; notes = w.notes; foreign = there }
    else record { clock = w.clock; notes = there; foreign = w.foreign }

abbrev info : ManagedContainerInfo
info = record { name = "notes"; running = true; state = "running"; labels = [] }

abbrev pub port : ContainerPort World
port = record {
  image_exists = λ image w. (ok true, w);
  pull_image = λ image w. (ok tt, w);
  exists = λ id w. (ok (present id w), w);
  is_running = λ id w. (ok (present id w), w);
  logs_tail = λ id n w. (ok "  ", w);
  validate_internal_network_support = λ config. ok tt;
  ensure_network = λ name internal w. (ok reused, w);
  get_container_ip = λ id w. (ok (some "192.168.64.3"), w);
  list_managed_containers = λ scope w. (ok (if w.notes then info ∷ [] else []), w);
  run = λ config w. (ok config.name, put config.name true w);
  stop = λ id w. (ok tt, put id false w);
  remove = λ id w. (ok tt, put id false w);
}

abbrev pub host : Host World
host = record {
  now = λ w. w.clock;
  sleep = λ d w. record { clock = w.clock + d; notes = w.notes; foreign = w.foreign };
  to_socket_addrs = λ name n w. (some ("127.0.0.1" ∷ []), w);
  connect_timeout = λ addr w. (true, w);
}

abbrev pub env : Environment World
env = record {
  container_port_for_runtime = λ runtime. port;
  host = host;
  platform = record { ids = some (1000, 1000); is_macos = false };
  pick_free_loopback_port = λ w. (ok 40000, w);
}

abbrev pub before : World
before = record { clock = 7; notes = true; foreign = true }

abbrev pub startup : ContainerStartupConfig
startup = record {
  runtime = docker;
  image = "vault-tools:1";
  container_name = "notes";
  network_name = "brain3-mcp-net";
  vault_path = "/home/me/vault";
  upstream_secret = "s";
  host_port = 2765;
  container_port = 2765;
  isolation_strategy = some publish_to_loopback;
  dev_mount_source = none;
  mcp_log_level = none;
  enable_sync_reindex_tool = false;
}

abbrev pub plugin : PluginMcpContainerConfig
plugin = record {
  name = "notes";
  runtime = macos_container;
  image = "notes:2";
  container_port = 8000;
  host_port = none;
  host_directory = "/home/me/notes";
  container_directory = "/data";
  network_name = "brain3-mcp-net";
  network_isolation = false;
  env = ("PUBLIC_BASE_URL", "http://mine") ∷ ("LEVEL", "debug") ∷ [];
  auth = no_auth;
}

-- The foreign container is there.
abbrev pub HasForeign : World → Type 0
HasForeign w = w.foreign ≡ true

abbrev pub NotForeign : String → Type 0
NotForeign name = name ≢ "foreign"

keeps : (Inv : World → Type 0) → Kept port host Inv
keeps Inv = record {
  image_exists = λ i w h. h;
  pull_image = λ i w h. h;
  exists = λ i w h. h;
  is_running = λ i w h. h;
  logs_tail = λ i n w h. h;
  ensure_network = λ i n w h. h;
  get_container_ip = λ i w h. h;
  list_managed_containers = λ s w h. h;
  to_socket_addrs = λ i n w h. h;
  connect_timeout = λ i w h. h;
}

pub port-IsClock : IsClock port host
port-IsClock = record { goes_on = λ t. keeps (λ w. t ≤ w.clock); sleeps = λ d w. omega arith }

put-HasForeign :
    (id : String) (there : Bool) (w : World)
    → NotForeign id
    → HasForeign w
    → HasForeign (put id there w)
put-HasForeign id there w other h = ground (arith, eq_iff id "foreign")

notes-NotForeign : NotForeign "notes"
notes-NotForeign = λ same. ground (arith, eq_iff "notes" "foreign")

listed-NotForeign :
    (b : Bool) (cs : List ManagedContainerInfo)
    → (if b then info ∷ [] else []) ≡ cs
    → All (λ c. NotForeign c.name) cs
listed-NotForeign true cs h = rw (← h) (notes-NotForeign, tt)
listed-NotForeign false cs h = rw (← h) tt

pub port-IsGuarded : IsGuarded port host "b3-1" HasForeign NotForeign
port-IsGuarded = record {
  kept = keeps HasForeign;
  rests = λ d w h. h;
  absent = λ id w h e same. ground (arith, ok-injective e, eq_iff id "foreign");
  listed = λ role w cs h e. listed-NotForeign w.notes cs (ok-injective e);
  run = λ config w other h. put-HasForeign config.name true w other h;
  stop = λ id w other h. put-HasForeign id false w other h;
  remove = λ id w other h. put-HasForeign id false w other h;
}
