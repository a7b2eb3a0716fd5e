-- ===== src/Tokens/Table.antt =====
-- The table `oauth_tokens` and the SQL statements that the store runs on it. A statement may fail:
-- `fault` is the message of a failure from outside, `none` where there is none.
use brain.Base.{
  ℕ, String, Option, none, some, Bool, false, not, List, [], ◌∷◌, ◌++◌, ◌==◌, ◌&&◌, any, find, keep,
  ltb, if◌then◌else◌,
}
use brain.Base.Optional
use brain.Base.Result
use brain.Base.Result.{Result, ok, err, ◌>>=◌, ◌>>◌}
use brain.Base.Text.{◌⧺◌}
use brain.Tokens.Grant.{
  TokenStoreError, unavailable, token_kind_to_str, token_kind_from_str, TokenRow, Formats,
  serialize_extensions, deserialize_extensions,
}

-- A row of the table: the nine columns, all TEXT.
pub record Row : Type 0 where
  pub token : String
  pub pair_id : String
  pub kind : String
  pub owner_id : String
  pub client_id : String
  pub redirect_uri : String
  pub scope : String
  pub expires_at : String
  pub extensions_json : String

-- `none` while the table does not exist.
abbrev pub Table : Type 0
Table = Option (List Row)

abbrev pub Fault : Type 0
Fault = Option String

-- `sqlite_error`: a failure from outside ends the statement.
abbrev pub checked : Fault → Result TokenStoreError Unit
checked none = ok tt
checked (some message) = err (unavailable message)

abbrev pub rows_of : Table → Result TokenStoreError (List Row)
rows_of none = err (unavailable "no such table: oauth_tokens")
rows_of (some rows) = ok rows

-- `SELECT … WHERE token = ?1`, which yields at most one row, since the token is the primary key.
unfoldable pub select_token : String → List Row → Option Row
select_token token = find (λ (row : Row). row.token == token)

-- `SELECT pair_id … WHERE token = ?1 AND kind = 'refresh'`
unfoldable pub select_refresh_pair : String → List Row → Option String
select_refresh_pair token rows =
    Optional.map (λ (row : Row). row.pair_id)
      (find (λ (row : Row). row.token == token && row.kind == "refresh") rows)

-- `DELETE … WHERE pair_id = ?1`
unfoldable pub delete_pair : String → List Row → List Row
delete_pair pair_id = keep (λ (row : Row). not (row.pair_id == pair_id))

-- `CREATE TABLE IF NOT EXISTS`
abbrev pub create_table : Table → Table
create_table none = some []
create_table (some rows) = some rows

-- `INSERT`, which the primary key makes fail for a token that is in the table.
unfoldable pub insert_row : Row → List Row → Result TokenStoreError (List Row)
insert_row row rows =
    if any (λ (r : Row). r.token == row.token) rows
    then err (unavailable "UNIQUE constraint failed: oauth_tokens.token")
    else ok (rows ++ row ∷ [])

module _ {Url Scope : Type 0} (formats : Formats Url Scope) where
  -- Whether `CAST(strftime('%s', expires_at) AS INTEGER)` is less than now; NULL is not.
  abbrev pub is_expired : ℕ → Row → Bool
  is_expired now_secs row = elim (formats.strftime row.expires_at) [
    | none ↦ false
    | some secs ↦ ltb secs now_secs
  ]

  -- `DELETE … WHERE CAST(strftime('%s', expires_at) AS INTEGER) < …`
  unfoldable pub delete_expired : ℕ → List Row → List Row
  delete_expired now_secs = keep (λ (row : Row). not (is_expired now_secs row))

  abbrev pub row_of : String → TokenRow Url Scope → String → Row
  row_of token row extensions_json = record {
    token = token;
    pair_id = row.pair_id;
    kind = token_kind_to_str row.kind;
    owner_id = row.grant.owner_id;
    client_id = row.grant.client_id;
    redirect_uri = formats.url_to_string row.grant.redirect_uri;
    scope = formats.scope_to_string row.grant.scope;
    expires_at = formats.to_rfc3339 row.grant.until;
    extensions_json = extensions_json;
  }

  unfoldable pub insert_token_row :
      Fault → String → TokenRow Url Scope → List Row → Result TokenStoreError (List Row)
  unfolding serialize_extensions token_kind_to_str insert_row
  insert_token_row fault token row rows = do
    extensions_json ← serialize_extensions formats row.grant.extensions
    checked fault
    insert_row (row_of token row extensions_json) rows

  unfoldable pub token_row_from_sql_row : Row → Result TokenStoreError (TokenRow Url Scope)
  unfolding token_kind_from_str deserialize_extensions
  token_row_from_sql_row row = do
    kind ← token_kind_from_str row.kind
    redirect_uri ←
        Result.map_err (λ error. unavailable ("invalid redirect URI: " ⧺ error))
          (formats.url_parse row.redirect_uri)
    scope ←
        Result.map_err (λ error. unavailable ("invalid scope: " ⧺ error))
          (formats.scope_parse row.scope)
    until ←
        Result.map_err (λ error. unavailable ("invalid expiry timestamp: " ⧺ error))
          (formats.time_parse row.expires_at)
    extensions ← deserialize_extensions formats row.extensions_json
    ok (record {
      pair_id = row.pair_id;
      kind = kind;
      grant = record {
        owner_id = row.owner_id;
        client_id = row.client_id;
        redirect_uri = redirect_uri;
        scope = scope;
        until = until;
        extensions = extensions;
      };
    })
