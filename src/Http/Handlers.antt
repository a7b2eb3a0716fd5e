-- ===== src/Http/Handlers.antt =====
-- `mcp_reverse_proxy`, `local_mcp_proxy` and `protected_resource_metadata`. The state of a handler is
-- the token store with the outside world. Log lines are left out.
use brain.Base.{ℕ, String, Option, none, some, Bool, true, false, [], ◌∷◌, if◌then◌else◌}
use brain.Base.Result.{Result, ok, err}
use brain.Base.Text.{◌⧺◌}
use brain.Domain
use brain.Domain.{ProxyError, Failure, panicked, McpProxyResponse}
use brain.Domain.Host.{validate_host}
use brain.Json.{Codec, string, obj, arr}
use brain.Router.Augment.{McpRouterUseCase}
use brain.Router.Route
use brain.Tokens.Grant.{Formats}
use brain.Tokens.Transaction.{Faults}
use brain.Tokens.Store.{SqliteTokenStore}
use brain.Http.Headers.{HeaderMap, resolve_base_url, effective_host, header_pairs}
use brain.Http.Auth.{parse_bearer_token, constant_time_eq, invalid_token, validate_access_token}
use brain.Http.Responses.{
  Response, HttpCrate, json, status_response, proxy_error_response, local_proxy_error_response,
  upstream_response_to_axum_response,
}

pub record Request (B : Type 0) : Type 0 where
  pub method : String
  pub path : String
  pub query : Option String
  pub headers : HeaderMap
  pub body : B

-- What the handlers read of `AppState`: the router, and the token of the local listener, if it is
-- configured. The token store is passed on as state.
pub record AppState (W B : Type 0) : Type 0 where
  pub proxy_mcp : McpRouterUseCase W B
  pub local_mcp : Option String

module _ {W B : Type 0} (http : HttpCrate) (codec : Codec B) (state : AppState W B) where
  -- A result of the router as a response, with the world that it leaves: a panic has no response.
  abbrev pub responded :
      HeaderMap → Bool → Result Failure (McpProxyResponse B) × W → Option (Response B) × W
  responded headers hints (ok upstream, w) =
      (some (upstream_response_to_axum_response http (ok upstream) headers hints), w)
  responded headers hints (err (Domain.error e), w) =
      (some (upstream_response_to_axum_response http (err e) headers hints), w)
  responded headers hints (err panicked, w) = (none, w)

  module _ {Url Scope : Type 0} (formats : Formats Url Scope) (faults : Faults) (now_unix : ℕ) where
    abbrev pub handled_by_router : Request B → W → Option (Response B) × W
    handled_by_router request w = responded request.headers true (
        Route.handle codec state.proxy_mcp (effective_host request.headers) request.method
          request.path request.query (header_pairs request.headers) request.body w)

    abbrev after_validation :
        Request B
        → W
        → Result ProxyError Unit × SqliteTokenStore
        → (Option (Response B) × W) × SqliteTokenStore
    after_validation request w (err error, issuer) =
        ((some (proxy_error_response http error request.headers), w), issuer)
    after_validation request w (ok _, issuer) = (handled_by_router request w, issuer)

    unfoldable pub mcp_reverse_proxy :
        Request B → SqliteTokenStore → W → (Option (Response B) × W) × SqliteTokenStore
    unfolding validate_access_token upstream_response_to_axum_response effective_host header_pairs
        Route.handle
    mcp_reverse_proxy request issuer w =
        after_validation request w
          (validate_access_token formats faults now_unix request.headers issuer)

  abbrev pub passed_unvalidated : Request B → W → Option (Response B) × W
  passed_unvalidated request w = responded request.headers false (
      Route.handle_unvalidated codec state.proxy_mcp (effective_host request.headers) request.method
        request.path request.query (header_pairs request.headers) request.body w)

  unfoldable pub local_mcp_proxy : Request B → W → Option (Response B) × W
  unfolding parse_bearer_token constant_time_eq local_proxy_error_response
      upstream_response_to_axum_response effective_host header_pairs Route.handle_unvalidated
  local_mcp_proxy request w = elim (parse_bearer_token request.headers) [
    | err error ↦ (some (local_proxy_error_response http error), w)
    | ok token ↦ elim state.local_mcp [
      | none ↦ (some (status_response 500), w)
      | some bearer_token ↦
          if constant_time_eq bearer_token token
          then passed_unvalidated request w
          else (some (local_proxy_error_response http invalid_token), w)
    ]
  ]

  unfoldable pub protected_resource_metadata : HeaderMap → Response B
  unfolding validate_host effective_host resolve_base_url proxy_error_response
  protected_resource_metadata headers =
      elim (validate_host (effective_host headers)
        state.proxy_mcp.proxy.hostname_validation.expected_host
        state.proxy_mcp.proxy.hostname_validation.enforce) [
          | err error ↦ proxy_error_response http error headers
          | ok _ ↦ record {
            status = 200;
            headers = ("content-type", "application/json") ∷ [];
            body = json (
                obj (
                  ("resource", string (resolve_base_url headers ⧺ "/mcp"))
                  ∷ ("authorization_servers", arr (string (resolve_base_url headers) ∷ []))
                  ∷ []));
          }
        ]
