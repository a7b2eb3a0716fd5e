-- ===== src/Http/OAuth/Tests.antt =====
-- The OAuth endpoints at concrete requests. The world is the number of codes and of exchanges that
-- the flows have made.
use brain.Base.{ℕ, suc, ◌≡◌, refl, ◌⊎◌, String, none, some, true, [], ◌∷◌, ◌==◌, if◌then◌else◌}
use brain.Base.Result.{ok, err}
use brain.Http.Headers.{HeaderMap}
use brain.Http.OAuth.Authorize.{oauth_authorize_post}
use brain.Http.OAuth.Authorize.Laws.{IsRefused, IsGranted, oauth_authorize_post-IsGuarded}
use brain.Http.OAuth.Params.{Form}
use brain.Http.OAuth.RateLimit
use brain.Http.OAuth.Refusal.{OAuthState, primitive}
use brain.Http.OAuth.Registrar
use brain.Http.OAuth.Registrar.{GatewayRegistrar, unspecified}
use brain.Http.OAuth.Token.{oauth_token}
use brain.Http.OAuth.Token.Laws.{IsNormalized, IsComplete, IsIncomplete, oauth_token-IsNormalized}
use brain.Http.Responses.{Response, bytes}
use brain.Json.{Value, string, obj}
use brain.Samples.{Bytes, codec}

abbrev registrar : GatewayRegistrar String
registrar = record { client_id = "c"; client_secret = "s"; default_scope = "read" }

abbrev refusal : Value
refusal = obj (("error", string "invalid_request") ∷ ("hint", string "code reused") ∷ [])

abbrev answered : Response Bytes
answered = record { status = 400; headers = []; body = bytes (some refusal) }

abbrev redirected : Response Bytes
redirected = record {
  status = 302;
  headers = ("location", "https://a/?code=1") ∷ [];
  body = bytes none;
}

abbrev state : OAuthState ℕ Bytes String
state = record {
  config = record {
    client_id = "c";
    client_secret = "s";
    access_token_lifetime_secs = 3600;
    refresh_token_lifetime_secs = 7776000;
    pkce_required = true;
    username = "admin";
    password = "pw";
  };
  registrar = registrar;
  rate_limiter = record {
    Ip = String;
    parse = λ s. some s;
    unspecified = "0.0.0.0";
    check_key = λ ip w. (if ip == "6.6.6.6" then err 0 else ok tt, w);
  };
  flows = record {
    prepare_authorization = λ r w. true;
    execute_authorization = λ r owner request w. (some redirected, suc w);
    prepare_access_token = λ r w. true;
    execute_access_token = λ r request w. (some answered, suc w);
    refresh = λ r request w. (err primitive, w);
  };
  bodies = record {
    to_bytes = λ limit body. some (some refusal);
    from_utf8_lossy = λ content. content;
    as_bytes = λ text. none;
  };
}

-- A form by its names and values.
abbrev login : Form
login name =
    if name == "response_type"
    then some "code"
    else (if name == "client_id"
        then some "c"
        else (if name == "redirect_uri"
            then some "https://a/"
            else (if name == "code_challenge"
                then some "xyz"
                else (if name == "code_challenge_method"
                    then some "S256"
                    else (if name == "username"
                        then some "admin"
                        else (if name == "password" then some "pw" else none))))))

abbrev exchange : Form
exchange name =
    if name == "grant_type"
    then some "authorization_code"
    else (if name == "client_id"
        then some "c"
        else (if name == "redirect_uri"
            then some "https://a/"
            else (if name == "code" then some "1" else none)))

abbrev headers : HeaderMap
headers = ("cf-connecting-ip", some " 1.2.3.4 ") ∷ []

issues_code : oauth_authorize_post state headers (some login) 0 ≡ (some redirected, 1)
unfolding oauth_authorize_post
issues_code = refl

oauth_authorize_post-IsGuarded_example :
    IsRefused state
      (RateLimit.check state.rate_limiter headers 0).1
      (oauth_authorize_post state headers (some login) 0)
    ⊎ (((RateLimit.check state.rate_limiter headers 0).0 ≡ ok tt)
        × IsGranted state
            (some login)
            (RateLimit.check state.rate_limiter headers 0).1
            (oauth_authorize_post state headers (some login) 0))
oauth_authorize_post-IsGuarded_example = oauth_authorize_post-IsGuarded state headers (some login) 0

oauth_token-IsNormalized_example :
    ((oauth_token codec state headers (some exchange) 0).1 ≡ 1)
    × ((IsComplete codec state (some exchange)
          × IsNormalized codec state refusal
              (some refusal)
              (oauth_token codec state headers (some exchange) 0).0)
        ⊎ (IsIncomplete codec state (some exchange)
            × ((oauth_token codec state headers (some exchange) 0).0.status ≡ 400)
            × ((oauth_token codec state headers (some exchange) 0).0.body ≡ bytes (some refusal))))
unfolding oauth_token
oauth_token-IsNormalized_example =
    oauth_token-IsNormalized codec state headers (some exchange) 0 1 answered (some refusal) refusal
      refl refl refl refl refl refl refl

checks_client :
    (Registrar.check registrar "c" (some "s") ≡ ok tt)
    × (Registrar.check registrar "c" (some "t") ≡ err unspecified)
    × (Registrar.check registrar "c" none ≡ err unspecified)
unfolding Registrar.check
checks_client = (refl, refl, refl)
