-- ===== src/Config/EnvFile/Tests.antt =====
-- The environment file at concrete variables.
use brain.Base.{◌≡◌, refl, true, false, String, Option, none, some, List, [], ◌∷◌, ◌==◌, find, ℕ}
use brain.Base.Optional
use brain.Base.Result.{Result, ok, err}
use brain.Config.EnvFile.{Process, ConfigError, missing, both, is_enabled, whisper_model_filename}
use brain.Config.EnvFile.Coherent.{IsCoherent, load-IsCoherent}
use brain.Config.EnvFile.Hosts.{TunnelConfig, cloudflare_named, cloudflare_quick}
use brain.Config.EnvFile.Load.{GatewayConfig, load}
use brain.Container.Model.{docker, discover_container_ip}
use brain.Config.EnvFile.Startup.{derive_container_name_from_image}

abbrev set_to : List (String × String) → Process
set_to variables = record {
  var = λ name. Optional.map (λ (v : String × String). v.1) (find (λ v. v.0 == name) variables);
  to_lowercase = λ s. s;
  os = "linux";
  random_secret = "r";
}

abbrev credentials : List (String × String)
credentials =
    ("B3_OAUTH2_GATEWAY_CLIENT_SECRET", "s")
    ∷ ("B3_USERNAME", "admin")
    ∷ ("B3_PASSWORD", "pw")
    ∷ ("HOME", "/home/me")
    ∷ []

abbrev named : List (String × String)
named =
    ("B3_CF_TUNNEL_NAME", " brain. ")
    ∷ ("B3_CF_DOMAIN", "example.org")
    ∷ ("B3_CONTAINER_RUNTIME", "docker")
    ∷ ("B3_VAULT_PATH", "/vault")
    ∷ ("B3_CONTAINER_IMAGE_REPO", "ghcr.io/a/tools")
    ∷ ("B3_CONTAINER_HOST_PORT", "3000")
    ∷ credentials

abbrev view : GatewayConfig → ℕ × Option String × Option TunnelConfig × String × String
view c = (
  c.port, c.hostname_validation.expected_host, c.tunnel, c.mcp_reverse_proxy.mcp_upstream_url,
  c.token_db_path,
)

abbrev viewed :
    Result ConfigError GatewayConfig
    → Result ConfigError (ℕ × Option String × Option TunnelConfig × String × String)
viewed (ok c) = ok (view c)
viewed (err e) = err e

loads_named_tunnel :
    viewed (load (set_to named) none)
    ≡ ok (
      2763,
      some "brain.example.org",
      some (cloudflare_named "brain" "example.org" "/home/me/.brain3/cloudflared/brain.yml" 2763),
      "http://127.0.0.1:3000",
      "/home/me/.brain3/brain3.db",
    )
unfolding load
loads_named_tunnel = refl

reports_missing_credentials :
    viewed (load (set_to (("HOME", "/home/me") ∷ ("B3_USERNAME", "admin") ∷ [])) none)
    ≡ err (missing "required env vars not set: B3_OAUTH2_GATEWAY_CLIENT_SECRET, B3_PASSWORD")
unfolding load
reports_missing_credentials = refl

-- A variable that is set to nothing counts as enabled.
empty_is_enabled : (is_enabled "" ≡ true) × (is_enabled " Off " ≡ false)
unfolding is_enabled
empty_is_enabled = (refl, refl)

names_container : derive_container_name_from_image "ghcr.io/a/tools:v1@sha256:00" ≡ ok "tools"
unfolding derive_container_name_from_image
names_container = refl

names_model :
    (whisper_model_filename "base.en" ≡ "ggml-base.en.bin")
    × (whisper_model_filename "ggml-x.bin" ≡ "ggml-x.bin")
unfolding whisper_model_filename
names_model = (refl, refl)

-- The quick tunnel is taken although a named one is set.
prefers_quick_tunnel :
    viewed (load (set_to (("B3_CF_QUICK_TUNNEL", "true") ∷ named)) none)
    ≡ ok (
      2763,
      none,
      some (cloudflare_quick 2763),
      "http://127.0.0.1:3000",
      "/home/me/.brain3/brain3.db",
    )
unfolding load
prefers_quick_tunnel = refl

abbrev named_config : GatewayConfig
named_config = record {
  port = 2763;
  host = "127.0.0.1";
  token_db_path = "/home/me/.brain3/brain3.db";
  oauth = record {
    client_id = "brain3-oauth2-client";
    client_secret = "s";
    access_token_lifetime_secs = 3600;
    refresh_token_lifetime_secs = 7776000;
    pkce_required = true;
    username = "admin";
    password = "pw";
  };
  mcp_reverse_proxy = record { mcp_upstream_url = "http://127.0.0.1:3000"; upstream_secret = "r" };
  hostname_validation = record { expected_host = some "brain.example.org"; enforce = true };
  access_mode = both;
  local_mcp = none;
  container = some (record {
    runtime = docker;
    image = "ghcr.io/a/tools:v0.2.12";
    container_name = "tools";
    network_name = "brain3-mcp-net";
    vault_path = "/vault";
    upstream_secret = "r";
    host_port = 3000;
    container_port = 2765;
    isolation_strategy = some discover_container_ip;
    dev_mount_source = none;
    mcp_log_level = none;
    enable_sync_reindex_tool = false;
  });
  tunnel =
      some (cloudflare_named "brain" "example.org" "/home/me/.brain3/cloudflared/brain.yml" 2763);
  native_audio_transcription = record {
    enabled = false;
    model = "base.en";
    model_path = "/home/me/.brain3/whisper-models/ggml-base.en.bin";
    max_audio_bytes = 52428800;
  };
}

loads_named_config : load (set_to named) none ≡ ok named_config
unfolding load
loads_named_config = refl

load-IsCoherent_example : IsCoherent (set_to named) named_config
load-IsCoherent_example = load-IsCoherent (set_to named) none named_config loads_named_config
