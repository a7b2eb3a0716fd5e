-- ===== src/Http/OAuth/Token.antt =====
-- `oauth_token` of crates/platform/src/http/oauth_handlers.rs with its two flows.
mod Normalized
pub mod Laws
use brain.Base.{
  ℕ, ◌*◌, ◌≤◌, String, Option, none, some, Bool, true, false, not, ◌&&◌, List, [], ◌∷◌, ◌==◌, any,
  leb, ltb, nat_eq, if◌then◌else◌,
}
use brain.Base.Optional
use brain.Base.Optional.{and_then, get_or, is_some}
use brain.Base.Result.{Result, ok, err}
use brain.Domain.{Headers}
use brain.Http.Headers.{HeaderMap}
use brain.Http.OAuth.Params.{Form, json_response}
use brain.Http.OAuth.RateLimit
use brain.Http.OAuth.Refusal.{
  RefreshError, invalid, unauthorized, primitive, BodyRefreshRequest, OAuthRequest, OAuthState,
  add_oauth_token_cache_headers, rate_limit_response, unless_limited,
}
use brain.Http.Responses.{Response, Body, empty, json, bytes, status_response}
use brain.Json.{Codec, Value, string, obj, get, as_str, as_object, insert, object, Fields}

pub record TokenRequestShape : Type 0 where
  pub grant_type : Option String
  pub has_client_id : Bool
  pub has_redirect_uri : Bool
  pub has_code : Bool
  pub has_refresh_token : Bool

-- `body.and_then(|body| body.unique_value(name))`
abbrev pub value_of : OAuthRequest → String → Option String
value_of request name = and_then request λ form. form name

unfoldable pub token_request_shape : OAuthRequest → TokenRequestShape
token_request_shape request = record {
  grant_type = value_of request "grant_type";
  has_client_id = is_some (value_of request "client_id");
  has_redirect_uri = is_some (value_of request "redirect_uri");
  has_code = is_some (value_of request "code");
  has_refresh_token = is_some (value_of request "refresh_token");
}

unfoldable pub from_oauth_request : OAuthRequest → BodyRefreshRequest
from_oauth_request request = record {
  valid = is_some request;
  grant_type = value_of request "grant_type";
  refresh_token = value_of request "refresh_token";
  client_id = value_of request "client_id";
  client_secret = value_of request "client_secret";
  scope = value_of request "scope";
}

-- `RefreshRequest::authorization`: the client with its secret, if the body has both.
unfoldable pub authorization : BodyRefreshRequest → Option (String × String)
authorization request =
    and_then request.client_id λ id. Optional.map (λ secret. (id, secret)) request.client_secret

abbrev pub is_text : String → Option String → Bool
is_text expected none = false
is_text expected (some s) = s == expected

-- The exchange of a code with all that it needs.
unfoldable pub should_normalize : ℕ → TokenRequestShape → Bool
should_normalize status shape =
    nat_eq status 400
    && is_text "authorization_code" shape.grant_type
    && shape.has_client_id
    && shape.has_redirect_uri
    && shape.has_code

-- `json_body["error"] = "invalid_grant"`, for a body whose error is a text: it is an object.
abbrev pub set_error : Value → Value
set_error body = elim (as_object body) [
  | some fields ↦ object (insert "error" (string "invalid_grant") fields)
  | none ↦ body
]

-- The type that a body brings stands where the flow has set none.
abbrev pub typed : String → Headers → Headers
typed content_type headers =
    if any (λ (h : String × String). h.0 == "content-type") headers
    then headers
    else ("content-type", content_type) ∷ headers

module _ {B : Type 0} where
  abbrev pub with_bytes : Response B → String → B → Response B
  with_bytes response content_type content = record {
    status = response.status;
    headers = typed content_type response.headers;
    body = bytes content;
  }

  abbrev pub with_json : Response B → Value → Response B
  with_json response value = record {
    status = response.status;
    headers = typed "application/json" response.headers;
    body = json value;
  }

  abbrev pub without_body : Response B → Response B
  without_body response = record {
    status = response.status;
    headers = response.headers;
    body = empty;
  }

module _ {W B Scope : Type 0} (codec : Codec B) (state : OAuthState W B Scope) where
  abbrev pub rewritten : Response B → B → Result String Value → Response B
  rewritten response content (err e) =
      with_bytes response "text/plain; charset=utf-8" (state.bodies.from_utf8_lossy content)
  rewritten response content (ok value) =
      if is_text "invalid_request" (and_then (get "error" value) as_str)
      then add_oauth_token_cache_headers (with_json response (set_error value))
      else with_bytes response "application/octet-stream" content

  -- An answer of the flow that is not a success is read, and rewritten for the exchange of a code.
  unfoldable pub normalize_token_error_response : Response B → TokenRequestShape → Response B
  unfolding should_normalize add_oauth_token_cache_headers
  normalize_token_error_response response shape =
      if leb 200 response.status && ltb response.status 300
      then response
      else (elim (state.bodies.to_bytes (16 * 1024) response.body) [
        | none ↦ without_body response
        | some content ↦
            if should_normalize response.status shape
            then rewritten response content (codec.from_slice content)
            else with_bytes response "application/octet-stream" content
      ])

  unfoldable pub unsupported_grant_type_response : Response B
  unfolding add_oauth_token_cache_headers
  unsupported_grant_type_response =
      add_oauth_token_cache_headers
        (json_response 400 (obj (("error", string "unsupported_grant_type") ∷ [])))

  abbrev pub flow_failed : Response B
  unfolding add_oauth_token_cache_headers
  flow_failed = add_oauth_token_cache_headers (status_response 500)

  abbrev pub normalized : TokenRequestShape → Option (Response B) × W → Response B × W
  unfolding normalize_token_error_response add_oauth_token_cache_headers
  normalized shape (none, w) = (flow_failed, w)
  normalized shape (some response, w) = (normalize_token_error_response response shape, w)

  unfoldable pub execute_authorization_code_token_flow :
      OAuthRequest → TokenRequestShape → W → Response B × W
  unfolding normalize_token_error_response add_oauth_token_cache_headers
  execute_authorization_code_token_flow request shape w =
      if state.flows.prepare_access_token state.registrar w
      then normalized shape (state.flows.execute_access_token state.registrar request w)
      else (flow_failed, w)

  abbrev pub json_text : ℕ → Headers → String → Response B
  json_text status more text = record {
    status = status;
    headers = ("content-type", "application/json") ∷ more;
    body = bytes (state.bodies.as_bytes text);
  }

  unfoldable pub refresh_response : Result RefreshError String → Response B
  unfolding add_oauth_token_cache_headers
  refresh_response (ok bearer) = add_oauth_token_cache_headers (json_text 200 [] bearer)
  refresh_response (err (invalid description)) =
      add_oauth_token_cache_headers (json_text 400 [] description)
  refresh_response (err (unauthorized description scheme)) =
      add_oauth_token_cache_headers (json_text 401 (("www-authenticate", scheme) ∷ []) description)
  refresh_response (err primitive) = flow_failed

  unfoldable pub execute_refresh_token_flow : OAuthRequest → W → Response B × W
  unfolding from_oauth_request refresh_response
  execute_refresh_token_flow request w =
      let r = state.flows.refresh state.registrar (from_oauth_request request) w in
      (refresh_response r.0, r.1)

  unfoldable pub dispatch : OAuthRequest → W → Response B × W
  unfolding token_request_shape execute_authorization_code_token_flow execute_refresh_token_flow
      unsupported_grant_type_response
  dispatch request w =
      let shape = token_request_shape request in
      if is_text "authorization_code" shape.grant_type
      then execute_authorization_code_token_flow request shape w
      else (if is_text "refresh_token" shape.grant_type
          then execute_refresh_token_flow request w
          else (unsupported_grant_type_response, w))

  unfoldable pub oauth_token : HeaderMap → OAuthRequest → W → Response B × W
  unfolding RateLimit.check rate_limit_response dispatch
  oauth_token headers request w =
      unless_limited rate_limit_response (dispatch request)
        (RateLimit.check state.rate_limiter headers w)
