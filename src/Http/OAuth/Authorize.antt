-- ===== src/Http/OAuth/Authorize.antt =====
-- `oauth_metadata`, `oauth_authorize_get` and `oauth_authorize_post` of
-- crates/platform/src/http/oauth_handlers.rs. A handler that panics has no response.
pub mod Laws
use Prim.Native.Nat.{min}
use Prim.Native.String.{len}
use text.Mathlib.Text.{get?}
use brain.Base.{ℕ, String, Option, none, some, Bool, true, false, [], ◌∷◌, if◌then◌else◌}
use brain.Base.Optional
use brain.Base.Optional.{get_or}
use brain.Base.Result.{Result, ok, err, ◌>>=◌, ◌>>◌}
use brain.Base.Text.{◌⧺◌}
use brain.Http.Headers.{HeaderMap, resolve_base_url}
use brain.Http.OAuth.Params.{
  Form, OAuthConfig, login_configured, check_credentials, parse_params, json_response,
  validate_authorize_params,
}
use brain.Http.OAuth.RateLimit
use brain.Http.OAuth.Refusal.{OAuthRequest, OAuthState, rate_limit_response, unless_limited}
use brain.Http.Responses.{
  Response, LoginFormParams, Page, page, login_form, misconfigured, status_response,
}
use brain.Json.{string, arr, obj}

-- `(status, Html(…))`
abbrev pub page_response : {B : Type 0} → ℕ → Page → Response B
page_response status shown = record {
  status = status;
  headers = ("content-type", "text/html; charset=utf-8") ∷ [];
  body = page shown;
}

unfoldable pub oauth_metadata : {B : Type 0} → HeaderMap → Response B
unfolding resolve_base_url
oauth_metadata headers =
    let base_url = resolve_base_url headers in
    json_response 200 (
      obj (
        ("issuer", string base_url)
        ∷ ("authorization_endpoint", string (base_url ⧺ "/oauth/authorize"))
        ∷ ("token_endpoint", string (base_url ⧺ "/oauth/token"))
        ∷ ("grant_types_supported", arr (string "authorization_code" ∷ string "refresh_token" ∷ []))
        ∷ ("response_types_supported", arr (string "code" ∷ []))
        ∷ ("code_challenge_methods_supported", arr (string "S256" ∷ []))
        ∷ ("token_endpoint_auth_methods_supported", arr (string "client_secret_post" ∷ []))
        ∷ []))

-- The checks of both authorization handlers.
unfoldable pub ready_for_login :
    {B : Type 0} → OAuthConfig → LoginFormParams → Result (Response B) Unit
unfolding validate_authorize_params login_configured
ready_for_login config params = do
  validate_authorize_params params config
  (if login_configured config then ok tt else err (page_response 503 misconfigured))

abbrev refused_or : {B : Type 0} → Response B → Result (Response B) Unit → Response B
refused_or response (ok _) = response
refused_or response (err refusal) = refusal

unfoldable pub oauth_authorize_get : {B : Type 0} → OAuthConfig → Form → Response B
unfolding ready_for_login parse_params
oauth_authorize_get config query =
    let params = parse_params query in
    refused_or (page_response 200 (login_form params none)) (ready_for_login config params)

-- The owner that a form names, if its parameters and its credentials pass every check.
unfoldable pub checked_owner : {B : Type 0} → OAuthConfig → Form → Result (Response B) String
unfolding ready_for_login parse_params check_credentials
checked_owner config form =
    let params = parse_params form in
    let username = get_or (form "username") "" in
    (do
      ready_for_login config params
      (if check_credentials username (get_or (form "password") "") config
          then ok username
          else err (page_response 401 (login_form params (some "Invalid username or password")))))

-- `&redirect_uri[..redirect_uri.len().min(50)]`, which the log line shows.
abbrev pub redirect_uri_prefix : String → Option String
redirect_uri_prefix redirect_uri = get? redirect_uri 0 (min (len redirect_uri) 50)

module _ {W B Scope : Type 0} (state : OAuthState W B Scope) where
  -- The flow, or the status of a failure before or in it.
  unfoldable pub run_authorization : String → OAuthRequest → W → Option (Response B) × W
  run_authorization owner request w =
      if state.flows.prepare_authorization state.registrar w
      then (let r = state.flows.execute_authorization state.registrar owner request w in
          (some (get_or r.0 (status_response 500)), r.1))
      else (some (status_response 500), w)

  -- The log line stands before the flow.
  abbrev pub if_shown : Option String → (W → Option (Response B) × W) → W → Option (Response B) × W
  if_shown none run w = (none, w)
  if_shown (some shown) run w = run w

  abbrev pub issue_code : Form → Result (Response B) String → W → Option (Response B) × W
  issue_code form (err refusal) w = (some refusal, w)
  issue_code form (ok owner) w =
      if_shown (redirect_uri_prefix (get_or (form "redirect_uri") ""))
        (run_authorization owner (some form)) w

  abbrev pub authorize_form : OAuthRequest → W → Option (Response B) × W
  authorize_form none w = (some (status_response 400), w)
  authorize_form (some form) w = issue_code form (checked_owner state.config form) w

  unfoldable pub oauth_authorize_post : HeaderMap → OAuthRequest → W → Option (Response B) × W
  unfolding RateLimit.check rate_limit_response checked_owner run_authorization parse_params
  oauth_authorize_post headers request w =
      unless_limited (λ retry_after. some (rate_limit_response retry_after))
        (authorize_form request) (RateLimit.check state.rate_limiter headers w)
