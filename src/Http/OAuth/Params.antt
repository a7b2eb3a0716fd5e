-- ===== src/Http/OAuth/Params.antt =====
-- The parameters of the authorization endpoint in crates/platform/src/http/oauth_handlers.rs, and the
-- checks of them and of the credentials.
use brain.Base.{
  ℕ, String, Option, none, some, Bool, true, false, not, ◌&&◌, ◌||◌, [], ◌∷◌, ◌==◌, if◌then◌else◌,
}
use brain.Base.Optional.{get_or}
use brain.Base.Result.{Result, ok, err}
use brain.Base.Text.{is_empty}
use brain.Http.Auth.{constant_time_eq}
use brain.Http.Responses.{Response, LoginFormParams, json}
use brain.Json.{string, obj}
use brain.Json

-- `OAuthConfig` of crates/core/src/domain/model.rs.
pub record OAuthConfig : Type 0 where
  pub client_id : String
  pub client_secret : String
  pub access_token_lifetime_secs : ℕ
  pub refresh_token_lifetime_secs : ℕ
  pub pkce_required : Bool
  pub username : String
  pub password : String

-- The parsed body of a form: `unique_value` is the value of a name that stands in it once.
abbrev pub Form : Type 0
Form = String → Option String

unfoldable pub login_configured : OAuthConfig → Bool
login_configured config = not (is_empty config.password) && not (is_empty config.username)

unfoldable pub check_credentials : String → String → OAuthConfig → Bool
unfolding constant_time_eq
check_credentials username password config =
    constant_time_eq config.username username && constant_time_eq config.password password

-- `.filter(|s| !s.is_empty())`
abbrev pub non_empty : Option String → Option String
non_empty none = none
non_empty (some s) = if is_empty s then none else some s

-- `parse_params_from_map`, and the same reading of the body of a form.
unfoldable pub parse_params : Form → LoginFormParams
parse_params form = record {
  response_type = get_or (form "response_type") "";
  client_id = get_or (form "client_id") "";
  redirect_uri = get_or (form "redirect_uri") "";
  state = non_empty (form "state");
  code_challenge = non_empty (form "code_challenge");
  code_challenge_method = non_empty (form "code_challenge_method");
}

abbrev pub is_s256 : Option String → Bool
is_s256 none = false
is_s256 (some method) = method == "S256"

-- `is_none_or(|s| s.is_empty())`
abbrev pub is_missing : Option String → Bool
is_missing none = true
is_missing (some s) = is_empty s

module _ {B : Type 0} where
  abbrev pub json_response : ℕ → Json.Value → Response B
  json_response status value = record {
    status = status;
    headers = ("content-type", "application/json") ∷ [];
    body = json value;
  }

  abbrev pub invalid_request : String → Response B
  invalid_request description =
      json_response 400
        (obj (("error", string "invalid_request") ∷ ("error_description", string description) ∷ []))

  abbrev pub check_challenge : LoginFormParams → Result (Response B) Unit
  check_challenge params =
      if is_missing params.code_challenge
      then err (invalid_request "code_challenge required")
      else (if is_s256 params.code_challenge_method
          then ok tt
          else err (invalid_request "code_challenge_method must be S256"))

  unfoldable pub validate_authorize_params :
      LoginFormParams → OAuthConfig → Result (Response B) Unit
  validate_authorize_params params config =
      if not (params.response_type == "code")
      then err (json_response 400 (obj (("error", string "unsupported_response_type") ∷ [])))
      else (if is_empty params.client_id || not (params.client_id == config.client_id)
          then err (json_response 401 (obj (("error", string "invalid_client") ∷ [])))
          else (if is_empty params.redirect_uri
              then err (invalid_request "redirect_uri required")
              else (if config.pkce_required then check_challenge params else ok tt)))
