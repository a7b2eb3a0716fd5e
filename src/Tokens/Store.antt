-- ===== src/Tokens/Store.antt =====
-- `SqliteTokenStore`: the schema, the transactions that issue and rotate a pair of tokens, and the
-- lookups. The store is the state of its operations; log lines are left out.
use brain.Base.{
  ℕ, ◌^◌, ◌-◌, ◌/◌, String, Option, none, some, Bool, true, false, List, ltb, if◌then◌else◌,
}
use brain.Base.Result.{Result, ok, err}
use brain.Base.Io.{Io, ◌>>◌, lift}
use brain.Tokens.Grant.{TokenStoreError, unavailable, TokenKind, kind_eq, Grant, Formats}
use brain.Tokens.Transaction.{SchemaFaults, Faults, transaction, insert_pair, rotate_rows}
use brain.Tokens.Table.{
  Row, Table, Fault, checked, rows_of, select_token, create_table, delete_expired,
  token_row_from_sql_row,
}

-- In seconds.
pub record TokenLifetimes : Type 0 where
  pub access_secs : ℕ
  pub refresh_secs : ℕ

-- `none` is a panic: chrono's `Duration::seconds` takes at most `i64::MAX / 1000` seconds.
unfoldable pub seconds_to_duration : ℕ → Option (Result TokenStoreError ℕ)
seconds_to_duration seconds =
    if ltb seconds (2 ^ 63)
    then (if ltb ((2 ^ 63 - 1) / 1000) seconds then none else some (ok seconds))
    else some (err (unavailable "token lifetime exceeds supported range"))

-- `TokenLifetimes::new`
unfoldable pub new_lifetimes : ℕ → ℕ → Option (Result TokenStoreError TokenLifetimes)
unfolding seconds_to_duration
new_lifetimes access_token_lifetime_secs refresh_token_lifetime_secs =
    elim (seconds_to_duration access_token_lifetime_secs) [
      | none ↦ none
      | some (err e) ↦ some (err e)
      | some (ok a) ↦ elim (seconds_to_duration refresh_token_lifetime_secs) [
        | none ↦ none
        | some (err e) ↦ some (err e)
        | some (ok r) ↦ some (ok (record { access_secs = a; refresh_secs = r }))
      ]
    ]

-- The database file: the table of an older version, if it is there, and the table of tokens.
pub record Database : Type 0 where
  pub access_tokens : Bool
  pub oauth_tokens : Table

pub record SqliteTokenStore : Type 0 where
  pub schema_ready : Bool
  pub lifetimes : TokenLifetimes
  pub usage : ℕ
  pub database : Database

abbrev pub with_database : Database → SqliteTokenStore → SqliteTokenStore
with_database database store = record {
  schema_ready = store.schema_ready;
  lifetimes = store.lifetimes;
  usage = store.usage;
  database = database;
}

-- `from_path` and `in_memory`, on a database file that is there already, or an empty one.
unfoldable pub from_path : Database → ℕ → ℕ → Option (Result TokenStoreError SqliteTokenStore)
unfolding new_lifetimes
from_path database access_token_lifetime_secs refresh_token_lifetime_secs =
    elim (new_lifetimes access_token_lifetime_secs refresh_token_lifetime_secs) [
      | none ↦ none
      | some (err e) ↦ some (err e)
      | some (ok lifetimes) ↦ some (
          ok (record {
            schema_ready = false;
            lifetimes = lifetimes;
            usage = 0;
            database = database;
          }))
    ]

-- A statement outside a transaction.
unfoldable pub exec : Fault → (Database → Database) → Io Database TokenStoreError Unit
exec none change db = (ok tt, change db)
exec (some message) change db = (err (unavailable message), db)

abbrev drop_legacy : Database → Database
drop_legacy db = record { access_tokens = false; oauth_tokens = db.oauth_tokens }

abbrev create_oauth_tokens : Database → Database
create_oauth_tokens db = record {
  access_tokens = db.access_tokens;
  oauth_tokens = create_table db.oauth_tokens;
}

-- The three statements of `ensure_schema`; the index changes no row.
unfoldable pub create_schema : SchemaFaults → Io Database TokenStoreError Unit
unfolding exec
create_schema faults = do
  lift (checked faults.connect)
  exec faults.drop drop_legacy
  exec faults.create create_oauth_tokens
  exec faults.index (λ db. db)

abbrev with_schema :
    SqliteTokenStore
    → Result TokenStoreError Unit × Database
    → Result TokenStoreError Unit × SqliteTokenStore
with_schema store (ok _, db) = (
  ok tt,
  record { schema_ready = true; lifetimes = store.lifetimes; usage = store.usage; database = db },
)
with_schema store (err e, db) = (err e, with_database db store)

unfoldable pub ensure_schema : SchemaFaults → Io SqliteTokenStore TokenStoreError Unit
unfolding create_schema
ensure_schema faults store =
    if store.schema_ready
    then (ok tt, store)
    else with_schema store (create_schema faults store.database)

abbrev with_rows :
    SqliteTokenStore
    → Result TokenStoreError (List Row)
    → Result TokenStoreError Unit × SqliteTokenStore
with_rows store (ok rows) = (
  ok tt,
  with_database (record { access_tokens = store.database.access_tokens; oauth_tokens = some rows })
      store,
)
with_rows store (err e) = (err e, store)

-- `run_db` of a transaction: one that fails, or is not committed, leaves the database as it was.
unfoldable pub in_transaction :
    Faults
    → (List Row → Result TokenStoreError (List Row))
    → Io SqliteTokenStore TokenStoreError Unit
unfolding transaction
in_transaction faults statements store =
    with_rows store (transaction faults statements store.database.oauth_tokens)

module _ {Url Scope : Type 0} (formats : Formats Url Scope) where
  unfoldable pub issue_pair :
      Faults
      → String
      → String
      → String
      → Grant Url Scope
      → Grant Url Scope
      → Io SqliteTokenStore TokenStoreError Unit
  unfolding ensure_schema in_transaction insert_pair
  issue_pair faults pair_id access_token refresh_token access_grant refresh_grant = do
    ensure_schema faults.schema
    in_transaction faults
        (insert_pair formats faults pair_id access_token refresh_token access_grant refresh_grant)

  unfoldable pub rotate_refresh_pair :
      Faults
      → String
      → String
      → String
      → String
      → Grant Url Scope
      → Grant Url Scope
      → Io SqliteTokenStore TokenStoreError Unit
  unfolding ensure_schema in_transaction rotate_rows
  rotate_refresh_pair faults old pair_id access_token refresh_token access_grant refresh_grant = do
    ensure_schema faults.schema
    in_transaction faults (
        rotate_rows formats faults old pair_id access_token refresh_token access_grant
          refresh_grant)

  -- `run_db` of the lookup.
  unfoldable pub find_grant :
      Faults → String → TokenKind → Table → Result TokenStoreError (Option (Grant Url Scope))
  unfolding select_token token_row_from_sql_row
  find_grant faults token expected_kind table = elim (checked faults.connect) [
    | err e ↦ err e
    | ok _ ↦ elim (checked faults.select) [
      | err e ↦ err e
      | ok _ ↦ elim (rows_of table) [
        | err e ↦ err e
        | ok rows ↦ elim (select_token token rows) [
          | none ↦ ok none
          | some row ↦ elim (token_row_from_sql_row formats row) [
            | err e ↦ err e
            | ok found ↦ ok (if kind_eq found.kind expected_kind then some found.grant else none)
          ]
        ]
      ]
    ]
  ]

  unfoldable pub load_token :
      Faults → String → TokenKind → Io SqliteTokenStore TokenStoreError (Option (Grant Url Scope))
  unfolding ensure_schema find_grant
  load_token faults token expected_kind = do
    ensure_schema faults.schema
    λ store. (find_grant faults token expected_kind store.database.oauth_tokens, store)

  -- `cleanup_expired`, at `now_secs` seconds since the epoch.
  unfoldable pub cleanup_expired : Faults → ℕ → Io SqliteTokenStore TokenStoreError Unit
  unfolding ensure_schema delete_expired
  cleanup_expired faults now_secs = do
    ensure_schema faults.schema
    lift (checked faults.connect)
    lift (checked faults.delete)
    λ store. with_rows store (elim (rows_of store.database.oauth_tokens) [
      | err e ↦ err e
      | ok rows ↦ ok (delete_expired formats now_secs rows)
    ])
