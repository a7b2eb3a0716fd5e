-- ===== src/Http/OAuth/Refusal.antt =====
-- What the OAuth endpoints share in crates/platform/src/http/oauth_handlers.rs: the oxide_auth crate
-- and the crates of bodies, and the responses to requests that no flow sees.
use brain.Base.{ℕ, String, Option, Bool, not, [], ◌∷◌, ◌++◌, ◌==◌, keep}
use brain.Base.Result.{Result, ok, err}
use brain.Domain.{Headers}
use brain.Domain.Decimal.{decimal}
use brain.Http.OAuth.Params.{Form, OAuthConfig, json_response}
use brain.Http.OAuth.RateLimit.{Limiter}
use brain.Http.OAuth.Registrar.{GatewayRegistrar}
use brain.Http.Responses.{Response, Body}
use brain.Json.{string, obj}

-- `RefreshError`, with the JSON of its description and the authentication scheme.
pub data RefreshError : Type 0 where
  invalid : (description : String) → RefreshError
  unauthorized : (description scheme : String) → RefreshError
  primitive : RefreshError

pub record BodyRefreshRequest : Type 0 where
  pub valid : Bool
  pub grant_type : Option String
  pub refresh_token : Option String
  pub client_id : Option String
  pub client_secret : Option String
  pub scope : Option String

-- `OAuthRequest`: the parsed body, if it is a form.
abbrev pub OAuthRequest : Type 0
OAuthRequest = Option Form

-- The flows of oxide_auth over the registrar of the gateway. The world has the authorizer and the
-- token store in it. A flow that fails has no response.
pub record Flows (W B Scope : Type 0) : Type 0 where
  pub prepare_authorization : GatewayRegistrar Scope → W → Bool
  pub execute_authorization :
      GatewayRegistrar Scope → (owner : String) → OAuthRequest → W → Option (Response B) × W
  pub prepare_access_token : GatewayRegistrar Scope → W → Bool
  pub execute_access_token : GatewayRegistrar Scope → OAuthRequest → W → Option (Response B) × W
  pub refresh : GatewayRegistrar Scope → BodyRefreshRequest → W → Result RefreshError String × W

-- `to_bytes` with its limit, `String::from_utf8_lossy` back as bytes, and the bytes of a text.
pub record Bodies (B : Type 0) : Type 0 where
  pub to_bytes : ℕ → Body B → Option B
  pub from_utf8_lossy : B → B
  pub as_bytes : String → B

-- What the handlers read of `AppState`.
pub record OAuthState (W B Scope : Type 0) : Type 1 where
  pub config : OAuthConfig
  pub registrar : GatewayRegistrar Scope
  pub rate_limiter : Limiter W
  pub flows : Flows W B Scope
  pub bodies : Bodies B

-- `HeaderMap::insert`
abbrev pub insert_header : String → String → Headers → Headers
insert_header name value headers =
    keep (λ (h : String × String). not (h.0 == name)) headers ++ (name, value) ∷ []

unfoldable pub add_oauth_token_cache_headers : {B : Type 0} → Response B → Response B
add_oauth_token_cache_headers response = record {
  status = response.status;
  headers =
      insert_header "pragma" "no-cache" (insert_header "cache-control" "no-store" response.headers);
  body = response.body;
}

unfoldable pub rate_limit_response : {B : Type 0} → ℕ → Response B
rate_limit_response retry_after_secs =
    let response = json_response 429 (
      obj (
        ("error", string "rate_limit_exceeded")
        ∷ ("error_description", string "Too many attempts. Try again later.")
        ∷ [])) in
    record response { headers = ("retry-after", decimal retry_after_secs) ∷ response.headers }

-- A handler behind the rate limit.
abbrev pub unless_limited : {W A : Type 0} → (ℕ → A) → (W → A × W) → Result ℕ Unit × W → A × W
unless_limited refuse handle (ok _, w) = handle w
unless_limited refuse handle (err retry_after, w) = (refuse retry_after, w)
