-- ===== src/Proxy.antt =====
-- crates/core/src/application/proxy_mcp.rs. The port that sends a request is a field, as in the
-- source. What is only logged is left out, but for the panic of a log line.
pub mod Laws
mod Tests
use brain.Base.{
  ℕ, ◌≡◌, refl, String, Option, none, some, Bool, true, false, not, ◌||◌, List, [], ◌∷◌, ◌++◌, ◌==◌,
  any, keep, find, if◌then◌else◌,
}
use brain.Base.Text
use brain.Base.Text.{◌⧺◌, trim_end_matches, eq_ignore_ascii_case, lowercase_is}
use brain.Base.Io
use brain.Base.Io.{Io, lift, ◌>>◌, throw}
use brain.Base.Result
use brain.Domain.Redact.{elide_secret}
use brain.Domain.{
  Headers, Failure, error, panicked, McpProxyRequest, McpProxyResponse, McpProxyPort,
}
use brain.Domain.Host.{HostnameValidationConfig, validate_host}
use brain.Base.Optional

abbrev pub hop_by_hop_headers : List String
hop_by_hop_headers =
    "connection" ∷ "keep-alive" ∷ "proxy-authenticate" ∷ "proxy-authorization" ∷ "te" ∷ "trailers"
    ∷ "transfer-encoding" ∷ "upgrade" ∷ []

abbrev pub request_strip_headers : List String
request_strip_headers =
    "authorization" ∷ "content-length" ∷ "host" ∷ "x-brain3-upstream-secret" ∷ hop_by_hop_headers

-- `SET.contains(name.to_lowercase().as_str())`
abbrev pub contains_lowercase : List String → String → Bool
contains_lowercase words name = any (λ word. lowercase_is name word) words

pub record ProxyMcpUseCase (W B : Type 0) : Type 0 where
  pub proxy : McpProxyPort W B
  pub upstream_url : String
  pub upstream_secret : String
  pub hostname_validation : HostnameValidationConfig

unfoldable pub filter_request_headers : Headers → Headers
unfolding lowercase_is
filter_request_headers =
    keep (λ (header : String × String). not (contains_lowercase request_strip_headers header.0))

unfoldable pub filter_response_headers : Headers → Headers
unfolding lowercase_is
filter_response_headers =
    keep (λ (header : String × String). not (contains_lowercase hop_by_hop_headers header.0))

unfoldable pub header_value : Headers → String → Option String
unfolding eq_ignore_ascii_case
header_value headers name =
    Optional.map (λ (header : String × String). header.1)
      (find (λ (header : String × String). eq_ignore_ascii_case header.0 name) headers)

-- `match query { Some(q) if !q.is_empty() => format!("?{q}"), _ => String::new() }`
abbrev pub query_part : Option String → String
query_part none = ""
query_part (some q) = if Text.is_empty q then "" else "?" ⧺ q

module _ {W B : Type 0} where
  unfoldable pub new :
      McpProxyPort W B → String → String → HostnameValidationConfig → ProxyMcpUseCase W B
  unfolding trim_end_matches
  new proxy upstream_url upstream_secret hostname_validation = record {
    proxy = proxy;
    upstream_url = trim_end_matches b'/' upstream_url;
    upstream_secret = upstream_secret;
    hostname_validation = hostname_validation;
  }

  module _ (use_case : ProxyMcpUseCase W B) where
    unfoldable pub build_upstream_url : String → Option String → String
    build_upstream_url path query =
        use_case.upstream_url ⧺ (if path == "/mcp/" then "/mcp" else path) ⧺ query_part query

    -- The log line before the request elides the secret, and panics where that does.
    unfoldable pub forward_request :
        String → String → String → Option String → Headers → B → Io W Failure (McpProxyResponse B)
    unfolding build_upstream_url filter_request_headers elide_secret
    forward_request request_host method path query headers body =
        elim (elide_secret use_case.upstream_secret) [
          | none ↦ throw panicked
          | some upstream_secret_hint ↦ Io.map_err error (
              use_case.proxy (record {
                method = method;
                url = build_upstream_url path query;
                headers =
                    filter_request_headers headers
                    ++ ("x-brain3-upstream-secret", use_case.upstream_secret) ∷ [];
                body = body;
              }))
        ]

    unfoldable pub handle_unvalidated :
        String → String → String → Option String → Headers → B → Io W Failure (McpProxyResponse B)
    unfolding forward_request
    handle_unvalidated request_host method path query headers body =
        forward_request request_host method path query headers body

    unfoldable pub handle :
        String → String → String → Option String → Headers → B → Io W Failure (McpProxyResponse B)
    unfolding forward_request validate_host
    handle request_host method path query headers body = do
      lift (
          Result.map_err error (
            validate_host request_host use_case.hostname_validation.expected_host
              use_case.hostname_validation.enforce))
      forward_request request_host method path query headers body
