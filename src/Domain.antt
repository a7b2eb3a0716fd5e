-- ===== src/Domain.antt =====
-- crates/core/src/domain: the errors of a proxied request and the redaction of secrets; with
-- `validate_host` of application/validate_request.rs and the ports that the use cases share.
pub mod Decimal
pub mod Redact
pub mod Host
use brain.Base.{String, List, ℕ}
use brain.Base.Text.{◌⧺◌}
use brain.Base.Io.{Io}

-- `ProxyError` of domain/errors.rs, and its `Display`.
pub data ProxyError : Type 0 where
  unauthorized misdirected_request bad_gateway : String → ProxyError

unfoldable pub display : ProxyError → String
display (unauthorized s) = "unauthorized: " ⧺ s
display (misdirected_request s) = "misdirected_request: " ⧺ s
display (bad_gateway s) = "bad_gateway: " ⧺ s

-- How a use case ends without a response: with its error, or with a panic, which ends the task of the
-- request.
pub data Failure : Type 0 where
  error : ProxyError → Failure
  panicked : Failure

-- ports/mcp_proxy.rs; `B` is the type of byte strings, `W` the state of the outside world.
abbrev pub Headers : Type 0
Headers = List (String × String)

pub record McpProxyRequest (B : Type 0) : Type 0 where
  pub method : String
  pub url : String
  pub headers : Headers
  pub body : B

pub record McpProxyResponse (B : Type 0) : Type 0 where
  pub status : ℕ
  pub headers : Headers
  pub body : B

abbrev pub McpProxyPort : Type 0 → Type 0 → Type 0
McpProxyPort W B = McpProxyRequest B → Io W ProxyError (McpProxyResponse B)
