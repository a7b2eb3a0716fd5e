-- ===== src/Config/EnvFile/Startup.antt =====
-- The settings of the gateway's own container in crates/platform/src/config/env_file.rs.
use brain.Base.{String, Option, none, some, Bool, true, false, not, ◌&&◌, ◌==◌, if◌then◌else◌}
use brain.Base.Optional.{get_or}
use brain.Base.Parse.{last_part, first_part}
use brain.Base.Result.{Result, ok, err, ◌>>=◌, ◌>>◌}
use brain.Base.Text.{◌⧺◌, is_empty}
use brain.Base.Whitespace.{trim, contains}
use brain.Config.EnvFile.{
  Process, ConfigError, invalid, env_var_or, require_nonempty_env, port_of, env_bool, trimmed,
  not_blank,
}
use brain.Container.Model.{
  ContainerRuntime, docker, macos_container, ContainerNetworkIsolationStrategy,
  discover_container_ip, publish_to_loopback, ContainerStartupConfig,
}

abbrev pub current_release : String
current_release = "v0.2.12"

abbrev no_name : String → Result ConfigError String
no_name image =
    err (invalid ("resolved container image: could not derive container name from '" ⧺ image ⧺ "'"))

abbrev unless_empty : String → String → Result ConfigError String
unless_empty image name = if is_empty name then no_name image else ok name

-- The last segment of the path, up to its digest and its tag.
unfoldable pub derive_container_name_from_image : String → Result ConfigError String
unfolding trim first_part
derive_container_name_from_image image = do
  last_segment ← unless_empty image (last_part b'/' (trim image))
  unless_empty image (first_part b':' (first_part b'@' last_segment))

abbrev pub parse_runtime : String → Result ConfigError ContainerRuntime
parse_runtime value =
    if value == "docker"
    then ok docker
    else if value == "macos-container"
    then ok macos_container
    else err (
        invalid (
          "B3_CONTAINER_RUNTIME: unknown value '" ⧺ value
          ⧺ "'; expected 'docker' or 'macos-container'"))

abbrev pub is_docker : ContainerRuntime → Bool
is_docker docker = true
is_docker macos_container = false

abbrev unsupported_text : String
unsupported_text =
    "B3_CONTAINER_INTERNAL_NETWORK_ISOLATION=true is not supported with B3_CONTAINER_RUNTIME=docker "
    ⧺ "on macos. For highest security, use the native macos-container runtime instead of Docker. "
    ⧺ "Otherwise set B3_CONTAINER_RUNTIME=macos-container or "
    ⧺ "B3_CONTAINER_INTERNAL_NETWORK_ISOLATION=false. Linux Docker is supported."

abbrev default_strategy : ContainerRuntime → ContainerNetworkIsolationStrategy
default_strategy docker = discover_container_ip
default_strategy macos_container = publish_to_loopback

unfoldable pub strategy_of :
    ContainerRuntime → String → Result ConfigError ContainerNetworkIsolationStrategy
strategy_of runtime value =
    if is_empty value
    then ok (default_strategy runtime)
    else if value == "discover-container-ip"
    then ok discover_container_ip
    else if value == "publish-to-loopback"
    then ok publish_to_loopback
    else err (
        invalid (
          "B3_CONTAINER_NETWORK_ISOLATION_STRATEGY: unknown value '" ⧺ value
          ⧺ "'; expected 'discover-container-ip' or 'publish-to-loopback'"))

-- The image is given without its tag.
unfoldable pub check_repo : String → Result ConfigError Unit
unfolding contains
check_repo repo =
    if contains ":" (last_part b'/' repo)
    then err (
        invalid (
          "B3_CONTAINER_IMAGE_REPO must not include a tag (found ':'). Use B3_CONTAINER_IMAGE_TAG "
          ⧺ "to pin a version, or leave it empty to automatically use the version matching this "
          ⧺ "binary (" ⧺ current_release ⧺ ")"))
    else ok tt

unfoldable pub checked_tag : String → Result ConfigError String
unfolding contains trim
checked_tag tag_override =
    let tag = trim tag_override in
    if contains ":" tag_override
    then err (
        invalid (
          "B3_CONTAINER_IMAGE_TAG must not include a colon (':'). Provide only the tag portion, "
          ⧺ "e.g. v0.1.7 or pr-123."))
    else ok (if is_empty tag then current_release else tag)

abbrev pub container_name_of : String → Option String → Result ConfigError String
container_name_of image none = derive_container_name_from_image image
container_name_of image (some name) = ok name

module _ (process : Process) where
  unfoldable pub validate_network_isolation_support :
      ContainerRuntime → Bool → Result ConfigError Unit
  validate_network_isolation_support runtime network_isolated =
      if not network_isolated
      then ok tt
      else if is_docker runtime && process.os == "macos"
      then err (invalid unsupported_text)
      else ok tt

  abbrev pub isolation_strategy :
      ContainerRuntime → Bool → Result ConfigError (Option ContainerNetworkIsolationStrategy)
  isolation_strategy runtime false = ok none
  isolation_strategy runtime true = do
    strategy ←
        strategy_of runtime (trim (env_var_or process "B3_CONTAINER_NETWORK_ISOLATION_STRATEGY" ""))
    ok (some strategy)

  -- The settings, once there is a runtime.
  unfoldable pub startup_of : String → String → Result ConfigError (Option ContainerStartupConfig)
  unfolding require_nonempty_env check_repo checked_tag env_var_or trimmed not_blank
      derive_container_name_from_image port_of env_bool validate_network_isolation_support
      strategy_of trim
  startup_of upstream_secret runtime_str =
      let network_isolated = env_bool process "B3_CONTAINER_INTERNAL_NETWORK_ISOLATION" true in
      (do
        runtime ← parse_runtime runtime_str
        vault_path ← require_nonempty_env process "B3_VAULT_PATH" "when B3_CONTAINER_RUNTIME is set"
        repo ←
            require_nonempty_env process "B3_CONTAINER_IMAGE_REPO"
              "when B3_CONTAINER_RUNTIME is set"
        check_repo repo
        tag ← checked_tag (env_var_or process "B3_CONTAINER_IMAGE_TAG" "")
        container_name ← container_name_of (repo ⧺ ":" ⧺ tag) (trimmed process "B3_CONTAINER_NAME")
        host_port ← port_of process "B3_CONTAINER_HOST_PORT" "2765"
        container_port ← port_of process "B3_CONTAINER_MCP_PORT" "2765"
        validate_network_isolation_support runtime network_isolated
        strategy ← isolation_strategy runtime network_isolated
        ok (
            some (record {
              runtime = runtime;
              image = repo ⧺ ":" ⧺ tag;
              container_name = container_name;
              network_name = get_or (trimmed process "B3_CONTAINER_NETWORK_NAME") "brain3-mcp-net";
              vault_path = vault_path;
              upstream_secret = upstream_secret;
              host_port = host_port;
              container_port = container_port;
              isolation_strategy = strategy;
              dev_mount_source = not_blank process "B3_DEV_CONTAINER_MOUNT_SOURCE";
              mcp_log_level = trimmed process "B3_VAULT_MCP_LOG_LEVEL";
              enable_sync_reindex_tool = env_bool process "BRAIN3_ENABLE_SYNC_REINDEX_TOOL" false;
            })))

  unfoldable pub load_container_startup_config :
      String → Result ConfigError (Option ContainerStartupConfig)
  unfolding env_var_or startup_of trim
  load_container_startup_config upstream_secret =
      let runtime_str = trim (env_var_or process "B3_CONTAINER_RUNTIME" "") in
      if is_empty runtime_str then ok none else startup_of upstream_secret runtime_str
