-- ===== src/Tokens/Recovery.antt =====
-- The lookups of `recover_token` and `recover_refresh` after `issue` and `refresh`.
use brain.Base.{◌≡◌, refl, ◌∙◌, String, none, some, List, arith, if◌then◌else◌}
use brain.Base.Result.{ok}
use brain.Tokens.Grant.{
  TokenKind, access, refresh, kind_eq, Grant, TokenRow, Formats, token_kind_to_str,
  token_kind_from_str, serialize_extensions,
}
use brain.Tokens.Grant.Laws.{IsFaithful, IsMap, restored, deserialize-serialize}
use brain.Tokens.Table.{Row, row_of, select_token, token_row_from_sql_row}
use brain.Tokens.Transaction.{SchemaFaults, Faults}
use brain.Tokens.Store.{
  SqliteTokenStore, exec, create_schema, ensure_schema, in_transaction, issue_pair,
  rotate_refresh_pair, find_grant, load_token,
}
use brain.Tokens.Issuer.{
  Call, IssuedToken, issue, refresh_token, grant_for_kind, recover_token, recover_refresh,
}
use brain.Tokens.Atomic.{access_of, refresh_of, IsPlaced, issue-IsPlaced, refresh-IsRotated}
use brain.Tokens.Changes.{rows, stored}
use brain.Tokens.Pair.{IsInserted, insert_pair-IsPair, select-other, select-inserted, tokens-differ}

-- Nothing fails.
abbrev pub no_schema_faults : SchemaFaults
no_schema_faults = record { connect = none; drop = none; create = none; index = none }

abbrev pub no_faults : Faults
no_faults = record {
  schema = no_schema_faults;
  connect = none;
  begin = none;
  select = none;
  delete = none;
  insert_access = none;
  insert_refresh = none;
  commit = none;
}

-- The database has the table, with the rows that `rows` reads.
abbrev pub HasTable : SqliteTokenStore → Type 0
HasTable store = store.database.oauth_tokens ≡ some (rows store)

module _ {Url Scope : Type 0} (formats : Formats Url Scope) where
  -- The grant as the database gives it back.
  abbrev pub stored_grant : Grant Url Scope → Grant Url Scope
  stored_grant grant = record {
    owner_id = grant.owner_id;
    client_id = grant.client_id;
    redirect_uri = grant.redirect_uri;
    scope = grant.scope;
    until = grant.until;
    extensions = restored grant.extensions;
  }

  kind-round : (kind : TokenKind) → token_kind_from_str (token_kind_to_str kind) ≡ ok kind
  unfolding token_kind_from_str token_kind_to_str
  kind-round access = refl
  kind-round refresh = refl

  row_of-parsed :
      IsFaithful formats
      → (token : String) (token_row : TokenRow Url Scope) (json : String)
      → IsMap token_row.grant.extensions
      → serialize_extensions formats token_row.grant.extensions ≡ ok json
      → token_row_from_sql_row formats (row_of formats token token_row json)
        ≡ ok (record {
          pair_id = token_row.pair_id;
          kind = token_row.kind;
          grant = stored_grant token_row.grant;
        })
  unfolding token_row_from_sql_row
  row_of-parsed faithful token token_row json m s =
      rw
        (
          kind-round token_row.kind,
          faithful.url token_row.grant.redirect_uri,
          faithful.scope token_row.grant.scope,
          faithful.time token_row.grant.until,
          deserialize-serialize formats faithful token_row.grant.extensions json m s,
        )
        refl

  load_token-found :
      (token : String) (kind : TokenKind) (store : SqliteTokenStore) (row : Row)
      → (found : TokenRow Url Scope) → HasTable store
      → select_token token (rows store) ≡ some row
      → token_row_from_sql_row formats row ≡ ok found
      → (load_token formats no_faults token kind store).0
        ≡ ok (if kind_eq found.kind kind then some found.grant else none)
  unfolding load_token ensure_schema create_schema exec find_grant
  load_token-found token kind store row found t s p = ground (arith, t, s, p)

  -- What the lookups say of a token whose row was inserted.
  inserted-recovered :
      IsFaithful formats
      → (token : String) (token_row : TokenRow Url Scope) (before after : List Row)
      → (later : SqliteTokenStore) (kind : TokenKind)
      → IsInserted formats token token_row before after
      → IsMap token_row.grant.extensions
      → HasTable later
      → select_token token (rows later) ≡ select_token token after
      → (load_token formats no_faults token kind later).0
        ≡ ok (if kind_eq token_row.kind kind then some (stored_grant token_row.grant) else none)
  inserted-recovered faithful token token_row before after later kind i m t s =
      load_token-found token kind later (row_of formats token token_row i.extensions_json) _ t
        (s ∙ select-inserted formats token token_row before after i)
        (row_of-parsed faithful token token_row i.extensions_json m i.serialized)

  module _ (call : Call Url Scope) (grant : Grant Url Scope) (store : SqliteTokenStore) where
    -- The four lookups of the two tokens of a pair.
    pub record IsRecovered (token : IssuedToken) (new_refresh : String) (later : SqliteTokenStore)
        : Type 0 where
      pub access_token :
          (recover_token formats no_faults token.token later).0
          ≡ ok (some (stored_grant (access_of formats call store grant)))
      pub refresh_token :
          (recover_refresh formats no_faults new_refresh later).0
          ≡ ok (some (stored_grant (refresh_of formats call store grant)))
      pub access_is_not_refresh : (recover_refresh formats no_faults token.token later).0 ≡ ok none
      pub refresh_is_not_access : (recover_token formats no_faults new_refresh later).0 ≡ ok none

    IsPlaced-IsRecovered :
        IsFaithful formats
        → IsMap grant.extensions
        → (token : IssuedToken) (new_refresh : String) (before : List Row)
          (later : SqliteTokenStore)
        → HasTable later
        → token.refresh_token ≡ some new_refresh
        → IsPlaced formats call grant store token before (rows later)
        → IsRecovered token new_refresh later
    unfolding recover_token recover_refresh grant_for_kind
    IsPlaced-IsRecovered faithful m token new_refresh before later t r p =
        let pair = insert_pair-IsPair formats call.faults _ _ _ _ _ before (rows later) p.placed in
        let is_access : token.token ≡ p.tags.access_token = ground (arith, p.token_of) in
        let is_refresh : new_refresh ≡ p.tags.refresh_token = ground (arith, p.token_of) in
        let of_access = λ (kind : TokenKind).
          inserted-recovered faithful _ _ _ pair.with_access later kind pair.first m t (
            select-other formats _ _ pair.with_access (rows later) _ pair.second
              (tokens-differ formats _ _ _ _ _ _ _ pair.first pair.second)) in
        let of_refresh = λ (kind : TokenKind).
          inserted-recovered faithful _ _ _ (rows later) later kind pair.second m t refl in
        record {
          access_token = rw is_access ground (arith, of_access access);
          refresh_token = rw is_refresh ground (arith, of_refresh refresh);
          access_is_not_refresh = rw is_access ground (arith, of_access refresh);
          refresh_is_not_access = rw is_refresh ground (arith, of_refresh access);
        }

    issue-HasTable :
        (token : IssuedToken)
        → (issue formats call grant store).0 ≡ ok token
        → HasTable (issue formats call grant store).1
    unfolding issue issue_pair in_transaction rows stored
    issue-HasTable token h = ground arith

    -- After `issue` returned tokens, recover_token finds the grant of the access token and
    -- recover_refresh that of the refresh token, each until its own time and with the extensions
    -- that were stored; neither finds the other's token. The extensions are a map, texts are read
    -- back as they were written, and the lookups do not fail.
    pub issue-IsRecovered :
        IsFaithful formats
        → IsMap grant.extensions
        → (token : IssuedToken) (new_refresh : String)
        → (issue formats call grant store).0 ≡ ok token
        → token.refresh_token ≡ some new_refresh
        → IsRecovered token new_refresh (issue formats call grant store).1
    issue-IsRecovered faithful m token new_refresh h r =
        IsPlaced-IsRecovered faithful m token new_refresh _ _ (issue-HasTable token h) r
          (issue-IsPlaced formats call grant store token h)

    refresh-HasTable :
        (old : String) (token : IssuedToken)
        → (refresh_token formats call old grant store).0 ≡ ok token
        → HasTable (refresh_token formats call old grant store).1
    unfolding refresh_token rotate_refresh_pair in_transaction rows stored
    refresh-HasTable old token h = ground arith

    -- After `refresh` returned tokens, the two lookups find their grants, each that of its own kind,
    -- until its own time and with the extensions that were stored. The extensions are a map, texts
    -- are read back as they were written, and the lookups do not fail.
    pub refresh-IsRecovered :
        IsFaithful formats
        → IsMap grant.extensions
        → (old : String) (token : IssuedToken) (new_refresh : String)
        → (refresh_token formats call old grant store).0 ≡ ok token
        → token.refresh_token ≡ some new_refresh
        → IsRecovered token new_refresh (refresh_token formats call old grant store).1
    refresh-IsRecovered faithful m old token new_refresh h r =
        IsPlaced-IsRecovered faithful m token new_refresh _ _ (refresh-HasTable old token h) r
          (refresh-IsRotated formats call grant store old token h).new_pair
