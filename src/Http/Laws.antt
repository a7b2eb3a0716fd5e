-- ===== src/Http/Laws.antt =====
-- The tokens that `mcp_reverse_proxy` and `local_mcp_proxy` require of a request.
use brain.Base.{
  ◌≡◌, ◌≢◌, refl, ◌⊎◌, eq_iff, inl, inr, ℕ, ◌/◌, ◌<◌, String, Option, none, some, ◌==◌, arith,
  Bool-cases, Option-cases,
}
use brain.Base.Text.{text_eq_sound}
use brain.Base.Result.{Result, ok, err}
use brain.Domain.{ProxyError}
use brain.Json.{Codec}
use brain.Tokens.Grant.{Grant, Formats, token_kind_from_str}
use brain.Tokens.Table.{Row, select_token, token_row_from_sql_row}
use brain.Tokens.Transaction.{Faults}
use brain.Tokens.Store.{SqliteTokenStore, load_token, find_grant}
use brain.Tokens.Issuer.{recover_token}
use brain.Tokens.Changes.{rows, stored, ensure_schema-rows}
use brain.Http.Headers.{HeaderMap}
use brain.Http.Auth.{parse_bearer_token, validate_access_token, invalid_token, constant_time_eq}
use brain.Http.Responses.{
  HttpCrate, Response, status_response, proxy_error_response, local_proxy_error_response,
}
use brain.Http.Handlers.{
  Request, AppState, handled_by_router, passed_unvalidated, mcp_reverse_proxy, local_mcp_proxy,
}

module _ {Url Scope : Type 0} (formats : Formats Url Scope) (faults : Faults) (now_unix : ℕ) where
  -- A request carries an access token: the token of its authorization header is in the table as an
  -- access token, its grant is recovered, and the grant's time is later than now, in whole seconds.
  pub record IsAuthorized (headers : HeaderMap) (issuer : SqliteTokenStore) : Type 0 where
    pub token : String
    pub grant : Grant Url Scope
    pub row : Row
    pub presented : parse_bearer_token headers ≡ ok token
    pub recovered : (recover_token formats faults token issuer).0 ≡ ok (some grant)
    pub in_table : select_token token (rows issuer) ≡ some row
    pub is_access : row.kind ≡ "access"
    pub in_time : now_unix < grant.until / 1000000000

  recover_token-found :
      (token : String) (issuer : SqliteTokenStore) (grant : Grant Url Scope)
      → (recover_token formats faults token issuer).0 ≡ ok (some grant)
      → (row : Row) × (select_token token (rows issuer) ≡ some row) × (row.kind ≡ "access")
  unfolding recover_token load_token find_grant rows stored token_row_from_sql_row
      token_kind_from_str
  recover_token-found token issuer grant h =
      elim (Option-cases (select_token token (rows issuer))) [
        | inl missing ↦ absurd (ground (arith, missing, ensure_schema-rows faults.schema issuer))
        | inr (row, found) ↦ (
          row,
          found,
          ground (
            arith,
            h,
            found,
            ensure_schema-rows faults.schema issuer,
            text_eq_sound row.kind "access",
          ),
        )
      ]

  validated-IsAuthorized :
      (headers : HeaderMap) (issuer : SqliteTokenStore) (token : String)
      → parse_bearer_token headers ≡ ok token
      → (found : Result Unit (Option (Grant Url Scope)) × SqliteTokenStore)
      → recover_token formats faults token issuer ≡ found
      → (validate_access_token formats faults now_unix headers issuer).0 ≡ ok tt
      → IsAuthorized headers issuer
  unfolding validate_access_token
  validated-IsAuthorized headers issuer token p (err e, s) f h = absurd (ground arith)
  validated-IsAuthorized headers issuer token p (ok none, s) f h = absurd (ground arith)
  validated-IsAuthorized headers issuer token p (ok (some grant), s) f h =
      let e : (recover_token formats faults token issuer).0 ≡ ok (some grant) = ground (arith, f) in
      let (row, found, kind) = recover_token-found token issuer grant e in
      record {
        token = token;
        grant = grant;
        row = row;
        presented = p;
        recovered = e;
        in_table = found;
        is_access = kind;
        in_time = ground (arith, h, p, f);
      }

  validate_access_token-IsAuthorized :
      (headers : HeaderMap) (issuer : SqliteTokenStore) (parsed : Result ProxyError String)
      → parse_bearer_token headers ≡ parsed
      → (validate_access_token formats faults now_unix headers issuer).0 ≡ ok tt
      → IsAuthorized headers issuer
  unfolding validate_access_token
  validate_access_token-IsAuthorized headers issuer (err e) p h = absurd (ground arith)
  validate_access_token-IsAuthorized headers issuer (ok token) p h =
      validated-IsAuthorized headers issuer token p _ refl h

  validate_access_token-refused :
      (headers : HeaderMap) (issuer : SqliteTokenStore) (e : ProxyError)
      → (validate_access_token formats faults now_unix headers issuer).0 ≡ err e
      → e ≡ invalid_token
  unfolding validate_access_token parse_bearer_token
  validate_access_token-refused headers issuer e h = ground arith

  module _ {W B : Type 0} (http : HttpCrate) (codec : Codec B) (state : AppState W B)
      (request : Request B) (issuer : SqliteTokenStore) (w : W) where
    mcp_reverse_proxy-cases :
        (validated : Result ProxyError Unit)
        → (validate_access_token formats faults now_unix request.headers issuer).0 ≡ validated
        → ((mcp_reverse_proxy http codec state formats faults now_unix request issuer w).0
            ≡ (some (proxy_error_response http invalid_token request.headers), w))
          ⊎ (IsAuthorized request.headers issuer
              × ((mcp_reverse_proxy http codec state formats faults now_unix request issuer w).0
                  ≡ handled_by_router http codec state formats faults now_unix request w))
    unfolding mcp_reverse_proxy
    mcp_reverse_proxy-cases (err e) v =
        inl (ground (arith, validate_access_token-refused request.headers issuer e))
    mcp_reverse_proxy-cases (ok tt) v =
        inr (validate_access_token-IsAuthorized request.headers issuer _ refl v, ground arith)

    -- A request to the public MCP endpoint either carries an access token, in which case the router
    -- handles it and its result is the response, or there is none if the proxy has panicked, or it is
    -- answered as unauthorized and nothing is sent. This holds for every store, also where its database
    -- fails.
    pub mcp_reverse_proxy-IsAuthorized :
        ((mcp_reverse_proxy http codec state formats faults now_unix request issuer w).0
          ≡ (some (proxy_error_response http invalid_token request.headers), w))
        ⊎ (IsAuthorized request.headers issuer
            × ((mcp_reverse_proxy http codec state formats faults now_unix request issuer w).0
                ≡ handled_by_router http codec state formats faults now_unix request w))
    mcp_reverse_proxy-IsAuthorized = mcp_reverse_proxy-cases _ refl

module _ {W B : Type 0} (http : HttpCrate) (codec : Codec B) (state : AppState W B)
    (request : Request B) (w : W) where
  parse_bearer_token-refused :
      (headers : HeaderMap) (e : ProxyError)
      → parse_bearer_token headers ≡ err e
      → e ≡ invalid_token
  unfolding parse_bearer_token
  parse_bearer_token-refused headers e h = ground arith

  -- A request that the local endpoint refuses: it has no bearer token, or another than the configured
  -- one.
  abbrev pub IsUnknown : Type 0
  IsUnknown =
      ((e : ProxyError) × (parse_bearer_token request.headers ≡ err e))
      ⊎ ((token configured : String) × (parse_bearer_token request.headers ≡ ok token)
          × (state.local_mcp ≡ some configured)
          × (configured ≢ token))

  abbrev pub IsAnswered : Option (Response B) × W → Type 0
  IsAnswered answer =
      (IsUnknown × (answer ≡ (some (local_proxy_error_response http invalid_token), w)))
      ⊎ (((token : String) × (parse_bearer_token request.headers ≡ ok token)
            × (state.local_mcp ≡ none)
            × (answer ≡ (some (status_response 500), w)))
          ⊎ ((token : String) × (parse_bearer_token request.headers ≡ ok token)
              × (state.local_mcp ≡ some token)
              × (answer ≡ passed_unvalidated http codec state request w)))

  local_mcp_proxy-cases :
      (parsed : Result ProxyError String)
      → parse_bearer_token request.headers ≡ parsed
      → IsAnswered (local_mcp_proxy http codec state request w)
  unfolding local_mcp_proxy constant_time_eq
  local_mcp_proxy-cases (err e) p =
      inl (inl (e, p), ground (arith, p, parse_bearer_token-refused request.headers e p))
  local_mcp_proxy-cases (ok token) p = elim (Option-cases state.local_mcp) [
    | inl missing ↦ inr (inl (token, p, missing, ground (arith, p, missing)))
    | inr (configured, known) ↦ elim (Bool-cases (configured == token)) [
      | inl same ↦ inr (
          inr (
            token,
            p,
            ground (arith, known, text_eq_sound configured token),
            ground (arith, p, known, same),
          ))
      | inr differ ↦ inl (
        inr (token, configured, p, known, λ e. ground (arith, eq_iff configured token)),
        ground (arith, p, known, differ),
      )
    ]
  ]

  -- A request to the local MCP endpoint is passed to the router only if a bearer token is configured
  -- and the request has it. A request without a token, or with another than the configured one, is
  -- answered as unauthorized; a request with a token where none is configured is answered with
  -- status 500; in both cases nothing is sent.
  pub local_mcp_proxy-IsAuthorized : IsAnswered (local_mcp_proxy http codec state request w)
  local_mcp_proxy-IsAuthorized = local_mcp_proxy-cases _ refl
