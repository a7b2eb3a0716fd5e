-- ===== src/Http/OAuth/Authorize/Laws.antt =====
-- Who reaches the authorization flow.
use brain.Base.{
  ℕ, ◌≤◌, ◌≡◌, refl, sym, ◌∙◌, ◌⊎◌, String, Option, none, some, true, false, arith, inl, inr,
  Bool-cases,
}
use brain.Base.Optional.{get_or}
use brain.Base.Result.{Result, ok, err, ok-injective, bind-ok}
use brain.Base.Text.{is_empty, text_eq_sound}
use brain.Http.Headers.{HeaderMap}
use brain.Http.OAuth.Authorize.{
  ready_for_login, checked_owner, run_authorization, if_shown, issue_code, authorize_form,
  oauth_authorize_post,
}
use brain.Http.OAuth.Params.{
  Form, OAuthConfig, login_configured, check_credentials, parse_params, validate_authorize_params,
  is_missing, is_s256,
}
use brain.Http.OAuth.RateLimit
use brain.Http.OAuth.Refusal.{OAuthRequest, OAuthState, rate_limit_response, unless_limited}
use brain.Http.Responses.{Response, LoginFormParams}

-- The parameters of a request that may be authorized.
pub record IsWellFormed (config : OAuthConfig) (params : LoginFormParams) : Type 0 where
  pub response_type : params.response_type ≡ "code"
  pub client : params.client_id ≡ config.client_id
  pub redirect : is_empty params.redirect_uri ≡ false
  pub challenge :
      config.pkce_required ≡ true
      → (is_missing params.code_challenge ≡ false) × (is_s256 params.code_challenge_method ≡ true)

validate_authorize_params-ok :
    {B : Type 0} (config : OAuthConfig) (params : LoginFormParams) (u : Unit)
    → validate_authorize_params {B = B} params config ≡ ok u
    → IsWellFormed config params
unfolding validate_authorize_params
validate_authorize_params-ok config params u h = record {
  response_type = text_eq_sound params.response_type "code" (ground arith);
  client = text_eq_sound params.client_id config.client_id (ground arith);
  redirect = ground arith;
  challenge = λ required. ground arith;
}

validate_authorize_params-err :
    {B : Type 0} (config : OAuthConfig) (params : LoginFormParams) (refusal : Response B)
    → validate_authorize_params params config ≡ err refusal
    → 400 ≤ refusal.status
unfolding validate_authorize_params
validate_authorize_params-err config params refusal h = ground arith

err-ok : {E A : Type 0} {e : E} {a : A} → err e ≡ ok a → ⊥
err-ok h = cc

-- The form of a user whose login is configured and who has given the right name and password.
pub record IsEntitled (config : OAuthConfig) (form : Form) (owner : String) : Type 0 where
  pub well_formed : IsWellFormed config (parse_params form)
  pub configured : (is_empty config.username ≡ false) × (is_empty config.password ≡ false)
  pub named : owner ≡ config.username
  pub username : get_or (form "username") "" ≡ config.username
  pub password : get_or (form "password") "" ≡ config.password

ready_for_login-ok :
    {B : Type 0} (config : OAuthConfig) (params : LoginFormParams) (u : Unit)
    → ready_for_login {B = B} config params ≡ ok u
    → IsWellFormed config params
      × (is_empty config.username ≡ false)
      × (is_empty config.password ≡ false)
unfolding ready_for_login login_configured
ready_for_login-ok config params u h =
    let (v, (valid, rest)) = bind-ok (validate_authorize_params params config) _ u h in
    (validate_authorize_params-ok config params v valid, ground arith, ground arith)

checked_owner-ok :
    {B : Type 0} (config : OAuthConfig) (form : Form) (owner : String)
    → checked_owner {B = B} config form ≡ ok owner
    → IsEntitled config form owner
unfolding checked_owner check_credentials
checked_owner-ok config form owner h =
    let (u, (ready, rest)) = bind-ok (ready_for_login config (parse_params form)) _ owner h in
    let (well_formed, user, secret) = ready_for_login-ok config (parse_params form) u ready in
    let username = get_or (form "username") "" in
    let password = get_or (form "password") "" in
    elim (Bool-cases (check_credentials username password config)) [
      | inr wrong ↦ let refused = rw wrong at rest in absurd (err-ok refused)
      | inl right ↦
          let same : config.username ≡ username =
            text_eq_sound config.username username (ground arith) in
          let same_too : config.password ≡ password =
            text_eq_sound config.password password (ground arith) in
          let owned : username ≡ owner = ok-injective (rw right at rest) in
          record {
            well_formed = well_formed;
            configured = (user, secret);
            named = sym owned ∙ sym same;
            username = sym same;
            password = sym same_too;
          }
    ]

checked_owner-err :
    {B : Type 0} (config : OAuthConfig) (form : Form) (refusal : Response B)
    → checked_owner config form ≡ err refusal
    → 400 ≤ refusal.status
unfolding checked_owner ready_for_login
checked_owner-err config form refusal h =
    ground (arith, validate_authorize_params-err config (parse_params form) refusal)

module _ {W B Scope : Type 0} (state : OAuthState W B Scope) where
  -- The world is left as the rate limit has left it, and the response, if there is one, is an error.
  abbrev pub IsRefused : W → Option (Response B) × W → Type 0
  IsRefused w (none, v) = v ≡ w
  IsRefused w (some response, v) = (v ≡ w) × (400 ≤ response.status)

  -- The flow has run, for the configured user.
  abbrev pub IsGranted : OAuthRequest → W → Option (Response B) × W → Type 0
  IsGranted request w result =
      (form : Form) × ((owner : String) × ((request ≡ some form)
          × IsEntitled state.config form owner
          × (result ≡ run_authorization state owner (some form) w)))

  if_shown-IsGuarded :
      (form : Form) (w : W) (owner : String) (shown : Option String)
      → IsEntitled state.config form owner
      → IsRefused w (if_shown state shown (run_authorization state owner (some form)) w)
        ⊎ IsGranted
            (some form)
            w
            (if_shown state shown (run_authorization state owner (some form)) w)
  if_shown-IsGuarded form w owner none entitled = inl refl
  if_shown-IsGuarded form w owner (some prefix) entitled =
      inr (form, (owner, (refl, entitled, refl)))

  issue_code-IsGuarded :
      (form : Form) (w : W) (r : Result (Response B) String)
      → checked_owner state.config form ≡ r
      → IsRefused w (issue_code state form r w)
        ⊎ IsGranted (some form) w (issue_code state form r w)
  issue_code-IsGuarded form w (err refusal) e =
      inl (refl, checked_owner-err state.config form refusal e)
  issue_code-IsGuarded form w (ok owner) e =
      if_shown-IsGuarded form w owner _ (checked_owner-ok state.config form owner e)

  authorize_form-IsGuarded :
      (request : OAuthRequest) (w : W)
      → IsRefused w (authorize_form state request w)
        ⊎ IsGranted request w (authorize_form state request w)
  authorize_form-IsGuarded none w = inl (refl, omega arith)
  authorize_form-IsGuarded (some form) w =
      issue_code-IsGuarded form w (checked_owner state.config form) refl

  -- The authorization endpoint lets a request into the authorization flow only if the rate limit has
  -- admitted it, its body is a form with the response type `code`, the configured client, a redirect
  -- URI and, where PKCE is required, an S256 challenge, a login is configured, and the form has the
  -- configured user name and password; the flow then runs for that user. Every other request
  -- leaves the world as the rate limit has left it, and gets an error or, where its log line
  -- panics, no response.
  pub oauth_authorize_post-IsGuarded :
      (headers : HeaderMap) (request : OAuthRequest) (w : W)
      → let limited = RateLimit.check state.rate_limiter headers w in
        let result = oauth_authorize_post state headers request w in
        IsRefused limited.1 result ⊎ ((limited.0 ≡ ok tt) × IsGranted request limited.1 result)
  unfolding oauth_authorize_post
  oauth_authorize_post-IsGuarded headers request w =
      admitted (RateLimit.check state.rate_limiter headers w)
    where
      admitted :
          (r : Result ℕ Unit × W)
          → IsRefused r.1 (
              unless_limited
                (λ retry_after. some (rate_limit_response retry_after))
                (authorize_form state request)
                r)
            ⊎ ((r.0 ≡ ok tt)
                × IsGranted request r.1 (
                    unless_limited
                      (λ retry_after. some (rate_limit_response retry_after))
                      (authorize_form state request)
                      r))
      admitted (err retry_after, v) = inl (refl, omega arith)
      admitted (ok _, v) = elim (authorize_form-IsGuarded request v) [
        | inl refused ↦ inl refused
        | inr granted ↦ inr (refl, granted)
      ]
