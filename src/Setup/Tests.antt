-- ===== src/Setup/Tests.antt =====
-- The set-up wizard at a concrete draft. The world is the list of the files that have been written.
use brain.Base.{◌≡◌, refl, String, none, some, true, false, List, [], ◌∷◌}
use brain.Base.Io.{pure}
use brain.Base.Result.{Result, ok, err}
use brain.Config.EnvFile.{Process}
use brain.Config.EnvFile.Hosts
use brain.Config.EnvFile.Hosts.{resolve_expected_host, load_tunnel_config}
use brain.Container.Model.{docker}
use brain.Setup.Existing.{image_repo_from_reference}
use brain.Setup.Finalized.{IsReady, finalize-IsReady}
use brain.Setup.Model.{
  SetupError, SetupPaths, remote_only, disabled, cloudflare_quick, cloudflare_named,
  SetupDraftConfig, linux, installed, SetupSummary, FinalizeSetupRequest,
}
use brain.Setup.Wizard.{SetupSystemPort, finalize}
use brain.Setup.Writer.{quote_env_value, render_env_file, build_overrides}
use brain.Setup.Written.{reading, build_overrides-Reads}

abbrev paths : SetupPaths
paths = record { app_home = "/b"; env_file = "/b/.env"; cloudflared_dir = "/b/cloudflared" }

abbrev port : SetupSystemPort (List (String × String))
port = record {
  operating_system = linux;
  resolve_paths = pure paths;
  collect_dependency_status = pure (record {
    operating_system = linux;
    package_manager = none;
    cloudflared = installed;
    preferred_container_runtime = installed;
    docker_installed = true;
    macos_container_installed = none;
    homebrew_installed = none;
  });
  generate_secret_hex = λ n. pure "5ec";
  generate_password = λ n. pure "drawn";
  render_env_file = λ draft paths files.
      (render_env_file "# Brain3\nB3_USERNAME=\nB3_ACCESS_MODE=both" draft paths, files);
  ensure_app_home_dirs = λ paths. pure tt;
  ensure_whisper_model = λ paths model. pure model;
  write_env_file = λ path contents files. (ok tt, (path, contents) ∷ files);
  path_exists = λ path. pure true;
}

abbrev prepared : SetupDraftConfig
prepared = record {
  gateway_port = 2763;
  client_id = "c";
  client_secret = "";
  access_token_lifetime_secs = 3600;
  refresh_token_lifetime_secs = 7200;
  username = "ad\"min";
  password = "";
  access_mode = remote_only;
  tunnel_mode = disabled;
  container_runtime = docker;
  vault_path = "/vault";
  container_image_repo = "repo";
  container_host_port = 2765;
  container_mcp_port = 2765;
  container_name = "tools";
  container_network_isolated = true;
  container_network_name = "net";
  local_mcp_enabled = true;
  local_mcp_port = 2764;
  local_mcp_bearer_token = "";
  pkce_required = true;
  enforce_hostname_check = true;
  direct_public_origin_hostname = none;
  native_audio_transcription_enabled = false;
  whisper_model = "base.en";
  whisper_max_audio_bytes = 1;
}

abbrev request : FinalizeSetupRequest
request = record { draft = prepared; generate_password = true }

abbrev summary : SetupSummary
summary = record {
  paths = paths;
  draft = record prepared {
    client_secret = "5ec";
    password = "drawn";
    local_mcp_enabled = false;
    tunnel_mode = cloudflare_quick;
  };
  dependencies = record {
    operating_system = linux;
    package_manager = none;
    cloudflared = installed;
    preferred_container_runtime = installed;
    docker_installed = true;
    macos_container_installed = none;
    homebrew_installed = none;
  };
}

finalizes_request : finalize port "repo" request [] ≡ (
  ok summary,
  ("/b/.env", "# Brain3\nB3_USERNAME=\"ad\\\"min\"\nB3_ACCESS_MODE=\"remote\"\n") ∷ [],
)
unfolding finalize render_env_file
finalizes_request = refl

finalize-IsReady_example : IsReady summary.draft
unfolding finalize render_env_file
finalize-IsReady_example = finalize-IsReady port "repo" request [] summary refl

-- A dollar sign is left as it is.
quotes_values : quote_env_value "a\\b$C" ≡ "\"a\\\\b$C\""
unfolding quote_env_value
quotes_values = refl

reads_references :
    (image_repo_from_reference "host:5000/a/b" ≡ "host:5000/a/b")
    × (image_repo_from_reference " host:5000/a/b:v1@sha256:0 " ≡ "host:5000/a/b")
unfolding image_repo_from_reference
reads_references = (refl, refl)

abbrev process : Process
process = record { var = λ name. none; to_lowercase = λ s. s; os = "linux"; random_secret = "r" }

abbrev named : SetupDraftConfig
named = record prepared { tunnel_mode = cloudflare_named "brain" "example.org" }

abbrev written : Result SetupError (List (String × String)) → List (String × String)
written (ok values) = values
written (err e) = []

abbrev values : List (String × String)
values = written (build_overrides named paths)

build_overrides-Reads_example :
    (resolve_expected_host (reading process values) ≡ ok (some "brain.example.org"))
    × (load_tunnel_config (reading process values) 2763
        ≡ ok (some (Hosts.cloudflare_named "brain" "example.org" "/b/cloudflared/brain.yml" 2763)))
unfolding build_overrides Hosts.normalize_hostname
build_overrides-Reads_example =
    build_overrides-Reads process refl named paths 2763 values refl (refl, refl)
