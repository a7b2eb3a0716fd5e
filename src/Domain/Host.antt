-- ===== src/Domain/Host.antt =====
-- application/validate_request.rs, with `HostnameValidationConfig` of domain/model.rs.
use brain.Base.{String, Option, none, some, Bool, true, false, ◌==◌, if◌then◌else◌}
use brain.Base.Text.{◌⧺◌}
use brain.Base.Result.{Result, ok, err}
use brain.Domain.{ProxyError, misdirected_request}

pub record HostnameValidationConfig : Type 0 where
  pub expected_host : Option String
  pub enforce : Bool

unfoldable pub validate_host : String → Option String → Bool → Result ProxyError Unit
validate_host request_host expected_host false = ok tt
validate_host request_host none true = ok tt
validate_host request_host (some expected) true =
    if request_host == expected
    then ok tt
    else err (
        misdirected_request
          ("request host '" ⧺ request_host ⧺ "' does not match expected host '" ⧺ expected ⧺ "'"))
