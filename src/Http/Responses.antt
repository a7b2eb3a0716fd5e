-- ===== src/Http/Responses.antt =====
-- The responses that the handlers make of errors and of upstream answers.
use brain.Base.{ℕ, String, Option, none, some, Bool, true, false, [], ◌∷◌, ◌++◌}
use brain.Base.Result.{Result, ok, err}
use brain.Base.Text.{◌⧺◌}
use brain.Domain.{
  Headers, ProxyError, unauthorized, misdirected_request, bad_gateway, McpProxyResponse,
}
use brain.Json.{Value, string, obj}
use brain.Proxy.{filter_response_headers}
use brain.Http.Headers.{HeaderMap, resolve_base_url, resource_metadata_url}

-- The parameters of an authorization request, as the login form carries them.
pub record LoginFormParams : Type 0 where
  pub response_type : String
  pub client_id : String
  pub redirect_uri : String
  pub state : Option String
  pub code_challenge : Option String
  pub code_challenge_method : Option String

-- The pages of http/templates.rs by what they are made of.
pub data Page : Type 0 where
  login_form : LoginFormParams → (error : Option String) → Page
  misconfigured : Page

pub data Body (B : Type 0) : Type 0 where
  empty : Body B
  json : Value → Body B
  bytes : B → Body B
  page : Page → Body B

-- The names of the headers are in lower case.
pub record Response (B : Type 0) : Type 0 where
  pub status : ℕ
  pub headers : Headers
  pub body : Body B

-- The checks of the http crate: `StatusCode::from_u16`, and a header as it is stored if its name and
-- its value are valid.
pub record HttpCrate : Type 0 where
  pub from_u16 : ℕ → Option ℕ
  pub header : String × String → Option (String × String)

abbrev pub status_response : {B : Type 0} → ℕ → Response B
status_response status = record { status = status; headers = []; body = empty }

-- `(status, Json(json!({ "error": …, "error_description": … })))`
abbrev pub json_error : {B : Type 0} → ℕ → String → String → Response B
json_error status error description = record {
  status = status;
  headers = ("content-type", "application/json") ∷ [];
  body = json (obj (("error", string error) ∷ ("error_description", string description) ∷ []));
}

-- The loop of `response_builder.header(…)`: `none` if a header is not valid.
unfoldable pub add_headers : HttpCrate → Headers → Option Headers
add_headers http [] = some []
add_headers http (h ∷ rest) = elim (http.header h) [
  | none ↦ none
  | some stored ↦ elim (add_headers http rest) [ none ↦ none | some more ↦ some (stored ∷ more) ]
]

abbrev www_authenticate : String → HeaderMap → String
www_authenticate description headers =
    "Bearer error=\"invalid_token\", error_description=\""
    ⧺ description
    ⧺ "\", resource_metadata=\""
    ⧺ resource_metadata_url (resolve_base_url headers)
    ⧺ "\""

module _ {B : Type 0} (http : HttpCrate) where
  abbrev with_header : Option (String × String) → Response B → Response B
  with_header none response = status_response 500
  with_header (some h) response = record response { headers = response.headers ++ h ∷ [] }

  unfoldable pub proxy_error_response : ProxyError → HeaderMap → Response B
  unfolding resolve_base_url resource_metadata_url
  proxy_error_response (unauthorized description) headers =
      with_header (http.header ("www-authenticate", www_authenticate description headers))
        (json_error 401 "invalid_token" description)
  proxy_error_response (misdirected_request description) headers =
      json_error 421 "misdirected_request" description
  proxy_error_response (bad_gateway description) headers =
      json_error 502 "bad_gateway" "MCP upstream unavailable"

  unfoldable pub local_proxy_error_response : ProxyError → Response B
  local_proxy_error_response (unauthorized description) = json_error 401 "invalid_token" description
  local_proxy_error_response (misdirected_request description) =
      json_error 421 "misdirected_request" description
  local_proxy_error_response (bad_gateway description) = json_error 502 "bad_gateway" description

  -- The answer of the upstream without its hop-by-hop headers, as it is built for the client.
  unfoldable pub passed_on : McpProxyResponse B → Response B
  unfolding filter_response_headers add_headers
  passed_on upstream = elim (add_headers http (filter_response_headers upstream.headers)) [
    | none ↦ status_response 500
    | some headers ↦ record {
      status = elim (http.from_u16 upstream.status) [ none ↦ 500 | some status ↦ status ];
      headers = headers;
      body = bytes upstream.body;
    }
  ]

  unfoldable pub upstream_response_to_axum_response :
      Result ProxyError (McpProxyResponse B) → HeaderMap → Bool → Response B
  unfolding passed_on proxy_error_response local_proxy_error_response
  upstream_response_to_axum_response (ok upstream) headers hints = passed_on upstream
  upstream_response_to_axum_response (err error) headers true = proxy_error_response error headers
  upstream_response_to_axum_response (err error) headers false = local_proxy_error_response error
