-- ===== src/Http/OAuth/Token/Laws.antt =====
-- The answers of the token endpoint.
use brain.Base.{
  ℕ, ◌≡◌, ◌*◌, refl, ◌⊎◌, String, none, some, Option-cases, true, false, ◌&&◌, arith, inl, inr,
  Bool-cases, leb, ltb,
}
use brain.Base.Result.{Result, ok, err}
use brain.Http.Headers.{HeaderMap}
use brain.Http.OAuth.RateLimit
use brain.Http.OAuth.Refusal.{
  OAuthRequest, OAuthState, add_oauth_token_cache_headers, rate_limit_response, unless_limited,
}
use brain.Http.OAuth.Token.{
  TokenRequestShape, token_request_shape, is_text, should_normalize, set_error, with_json,
  rewritten, normalize_token_error_response, execute_authorization_code_token_flow, value_of,
  with_bytes, dispatch, oauth_token,
}
use brain.Http.Responses.{Response, json, bytes}
use brain.Json.{Codec, Value}
use brain.Http.OAuth.Token.Normalized.{
  IsUncached, cache_headers-IsUncached, is_invalid_request, IsInvalidGrant,
  set_error-IsInvalidGrant,
}

module _ {W B Scope : Type 0} (codec : Codec B) (state : OAuthState W B Scope) where
  -- The answer to an exchange of a code that the flow has answered with status 400: with
  -- `invalid_grant` for `invalid_request`, and otherwise with the bytes of the flow's answer.
  abbrev pub IsNormalized : Value → B → Response B → Type 0
  IsNormalized value content response =
      (response.status ≡ 400)
      × (((is_invalid_request value ≡ true)
            × IsUncached response
            × ((changed : Value) × ((response.body ≡ json changed) × IsInvalidGrant value changed)))
          ⊎ ((is_invalid_request value ≡ false) × (response.body ≡ bytes content)))

  rewritten-IsNormalized :
      (response : Response B) (content : B) (value : Value)
      → response.status ≡ 400
      → IsNormalized value content (rewritten codec state response content (ok value))
  unfolding add_oauth_token_cache_headers
  rewritten-IsNormalized response content value bad = elim (Bool-cases (is_invalid_request value)) [
    | inl matches ↦ rw matches (
      bad,
      inl (
        refl,
        cache_headers-IsUncached (with_json response (set_error value)),
        (set_error value, (refl, set_error-IsInvalidGrant value matches)),
      ),
    )
    | inr differs ↦ rw differs (bad, inr (refl, refl))
  ]

  normalize-rewritten :
      (response : Response B) (shape : TokenRequestShape) (content : B) (value : Value)
      → response.status ≡ 400
      → should_normalize response.status shape ≡ true
      → state.bodies.to_bytes (16 * 1024) response.body ≡ some content
      → codec.from_slice content ≡ ok value
      → normalize_token_error_response codec state response shape
        ≡ rewritten codec state response content (ok value)
  unfolding normalize_token_error_response
  normalize-rewritten response shape content value bad complete read parsed =
      let failed : (leb 200 response.status && ltb response.status 300) ≡ false = ground arith in
      rw (failed, read, complete, parsed) refl

  normalize-kept :
      (response : Response B) (shape : TokenRequestShape) (content : B)
      → response.status ≡ 400
      → should_normalize response.status shape ≡ false
      → state.bodies.to_bytes (16 * 1024) response.body ≡ some content
      → normalize_token_error_response codec state response shape
        ≡ with_bytes response "application/octet-stream" content
  unfolding normalize_token_error_response
  normalize-kept response shape content bad incomplete read =
      let failed : (leb 200 response.status && ltb response.status 300) ≡ false = ground arith in
      rw (failed, read, incomplete) refl

  -- A form that has all three of the client, the redirect URI and the code, and one that lacks one.
  abbrev pub IsComplete : OAuthRequest → Type 0
  IsComplete request =
      ((s : String) × (value_of request "client_id" ≡ some s))
      × ((s : String) × (value_of request "redirect_uri" ≡ some s))
      × ((s : String) × (value_of request "code" ≡ some s))

  abbrev pub IsIncomplete : OAuthRequest → Type 0
  IsIncomplete request =
      (value_of request "client_id" ≡ none)
      ⊎ ((value_of request "redirect_uri" ≡ none) ⊎ (value_of request "code" ≡ none))

  IsComplete-cases : (request : OAuthRequest) → IsComplete request ⊎ IsIncomplete request
  IsComplete-cases request = elim (Option-cases (value_of request "client_id")) [
    | inl missing ↦ inr (inl missing)
    | inr client ↦ elim (Option-cases (value_of request "redirect_uri")) [
      | inl missing ↦ inr (inr (inl missing))
      | inr redirect ↦ elim (Option-cases (value_of request "code")) [
        | inl missing ↦ inr (inr (inr missing))
        | inr code ↦ inl (client, redirect, code)
      ]
    ]
  ]

  complete-normalized :
      (status : ℕ) (request : OAuthRequest)
      → status ≡ 400
      → value_of request "grant_type" ≡ some "authorization_code"
      → IsComplete request
      → should_normalize status (token_request_shape request) ≡ true
  unfolding should_normalize token_request_shape
  complete-normalized status request bad exchange ((_, client), (_, redirect), (_, code)) =
      rw (bad, exchange, client, redirect, code) refl

  incomplete-kept :
      (status : ℕ) (request : OAuthRequest)
      → IsIncomplete request
      → should_normalize status (token_request_shape request) ≡ false
  unfolding should_normalize token_request_shape
  incomplete-kept status request (inl missing) = ground (arith, missing)
  incomplete-kept status request (inr (inl missing)) = ground (arith, missing)
  incomplete-kept status request (inr (inr missing)) = ground (arith, missing)

  admitted-handle :
      {A : Type 0} (refuse : ℕ → A) (handle : W → A × W) (r : Result ℕ Unit × W)
      → r.0 ≡ ok tt
      → unless_limited refuse handle r ≡ handle r.1
  admitted-handle refuse handle (ok _, w) h = refl
  admitted-handle refuse handle (err n, w) h = cc

  is_exchange :
      (request : OAuthRequest)
      → value_of request "grant_type" ≡ some "authorization_code"
      → is_text "authorization_code" (token_request_shape request).grant_type ≡ true
  unfolding token_request_shape
  is_exchange request exchange = rw exchange refl

  dispatch-normalized :
      (request : OAuthRequest) (w v : W) (response : Response B)
      → value_of request "grant_type" ≡ some "authorization_code"
      → state.flows.prepare_access_token state.registrar w ≡ true
      → state.flows.execute_access_token state.registrar request w ≡ (some response, v)
      → dispatch codec state request w
        ≡ (normalize_token_error_response codec state response (token_request_shape request), v)
  unfolding dispatch execute_authorization_code_token_flow
  dispatch-normalized request w v response exchange prepared run =
      rw (is_exchange request exchange, prepared, run) refl

  -- An exchange of a code that the rate limit admits, and that the flow answers with status 400 and a
  -- body of JSON, is answered with status 400 and leaves the world as the flow has left it. If the
  -- form has a client, a redirect URI and a code, and the answer of the flow has the error
  -- `invalid_request`, then the error becomes `invalid_grant`, every other field stays as it was, and
  -- caches are forbidden to keep the response. In every other case the body is the flow's.
  pub oauth_token-IsNormalized :
      (headers : HeaderMap) (request : OAuthRequest) (w v : W) (response : Response B) (content : B)
      (value : Value)
      → (RateLimit.check state.rate_limiter headers w).0 ≡ ok tt
      → value_of request "grant_type" ≡ some "authorization_code"
      → response.status ≡ 400
      → state.flows.prepare_access_token state.registrar
          (RateLimit.check state.rate_limiter headers w).1
        ≡ true
      → state.flows.execute_access_token state.registrar request
          (RateLimit.check state.rate_limiter headers w).1
        ≡ (some response, v)
      → state.bodies.to_bytes (16 * 1024) response.body ≡ some content
      → codec.from_slice content ≡ ok value
      → ((oauth_token codec state headers request w).1 ≡ v)
        × ((IsComplete request
              × IsNormalized value content (oauth_token codec state headers request w).0)
            ⊎ (IsIncomplete request
                × ((oauth_token codec state headers request w).0.status ≡ 400)
                × ((oauth_token codec state headers request w).0.body ≡ bytes content)))
  unfolding oauth_token
  oauth_token-IsNormalized headers request w v response content value admitted exchange bad prepared
        run read parsed =
      let x = (RateLimit.check state.rate_limiter headers w).1 in
      let shape = token_request_shape request in
      rw
        (
          admitted-handle rate_limit_response (dispatch codec state request)
              (RateLimit.check state.rate_limiter headers w) admitted,
          dispatch-normalized request x v response exchange prepared run,
        )
        (
          refl,
          (elim (IsComplete-cases request) [
            | inl complete ↦ inl (
              complete,
              (rw
                  (normalize-rewritten response shape content value bad
                    (complete-normalized response.status request bad exchange complete) read parsed)
                  (rewritten-IsNormalized response content value bad)),
            )
            | inr incomplete ↦
                let kept =
                  normalize-kept response shape content bad
                    (incomplete-kept response.status request incomplete) read in
                inr (incomplete, rw kept bad, rw kept refl)
          ]),
        )
