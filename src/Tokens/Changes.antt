-- ===== src/Tokens/Changes.antt =====
-- The rows of the table before and after the schema and the transactions of the store.
use brain.Base.{◌≡◌, refl, String, none, some, List, []}
use brain.Base.Result.{Result, ok, err}
use native.Mathlib.Omega.{arith}
use brain.Tokens.Grant.{TokenStoreError, Grant, Formats}
use brain.Tokens.Table.{Row, Table, create_table}
use brain.Tokens.Transaction.{SchemaFaults, Faults, transaction, insert_pair, rotate_rows}
use brain.Tokens.Store.{
  Database, SqliteTokenStore, exec, create_schema, ensure_schema, in_transaction, issue_pair,
  rotate_refresh_pair,
}
use brain.Tokens.Issuer.{refresh_token}

-- The rows that the database has; none where there is no table.
unfoldable pub stored : Table → List Row
stored none = []
stored (some rows) = rows

unfoldable pub rows : SqliteTokenStore → List Row
unfolding stored
rows store = stored store.database.oauth_tokens

stored-create_table : (table : Table) → stored (create_table table) ≡ stored table
unfolding stored
stored-create_table none = refl
stored-create_table (some r) = refl

pub create_schema-rows :
    (faults : SchemaFaults) (db : Database)
    → stored (create_schema faults db).1.oauth_tokens ≡ stored db.oauth_tokens
unfolding create_schema exec
create_schema-rows faults db = ground (arith, stored-create_table db.oauth_tokens)

pub ensure_schema-rows :
    (faults : SchemaFaults) (store : SqliteTokenStore)
    → rows (ensure_schema faults store).1 ≡ rows store
unfolding ensure_schema rows
ensure_schema-rows faults store = ground (arith, create_schema-rows faults store.database)

pub in_transaction-refused :
    (faults : Faults) (statements : List Row → Result TokenStoreError (List Row))
    (store : SqliteTokenStore) (e : TokenStoreError)
    → (in_transaction faults statements store).0 ≡ err e
    → rows (in_transaction faults statements store).1 ≡ rows store
unfolding in_transaction
in_transaction-refused faults statements store e h = ground arith

pub in_transaction-done :
    (faults : Faults) (statements : List Row → Result TokenStoreError (List Row))
    (store : SqliteTokenStore)
    → (in_transaction faults statements store).0 ≡ ok tt
    → statements (rows store) ≡ ok (rows (in_transaction faults statements store).1)
unfolding in_transaction transaction rows stored
in_transaction-done faults statements store h = ground arith

pub issue_pair-refused :
    {Url Scope : Type 0} (formats : Formats Url Scope) (faults : Faults)
    → (pair_id access_token refresh_token : String) (a r : Grant Url Scope)
    → (store : SqliteTokenStore) (e : TokenStoreError)
    → (issue_pair formats faults pair_id access_token refresh_token a r store).0 ≡ err e
    → rows (issue_pair formats faults pair_id access_token refresh_token a r store).1 ≡ rows store
unfolding issue_pair
issue_pair-refused formats faults pair_id access_token refresh_token a r store e h =
    let ready = (ensure_schema faults.schema store).1 in
    ground (
      arith,
      ensure_schema-rows faults.schema store,
      in_transaction-refused faults
          (insert_pair formats faults pair_id access_token refresh_token a r) ready e,
    )

pub issue_pair-done :
    {Url Scope : Type 0} (formats : Formats Url Scope) (faults : Faults)
    → (pair_id access_token refresh_token : String) (a r : Grant Url Scope)
    → (store : SqliteTokenStore)
    → (issue_pair formats faults pair_id access_token refresh_token a r store).0 ≡ ok tt
    → insert_pair formats faults pair_id access_token refresh_token a r (rows store)
      ≡ ok (rows (issue_pair formats faults pair_id access_token refresh_token a r store).1)
unfolding issue_pair
issue_pair-done formats faults pair_id access_token refresh_token a r store h =
    let ready = (ensure_schema faults.schema store).1 in
    ground (
      arith,
      ensure_schema-rows faults.schema store,
      in_transaction-done faults (insert_pair formats faults pair_id access_token refresh_token a r)
          ready,
    )

pub rotate-refused :
    {Url Scope : Type 0} (formats : Formats Url Scope) (faults : Faults)
    → (old pair_id access_token refresh_token : String) (a r : Grant Url Scope)
    → (store : SqliteTokenStore) (e : TokenStoreError)
    → (rotate_refresh_pair formats faults old pair_id access_token refresh_token a r store).0
      ≡ err e
    → rows (rotate_refresh_pair formats faults old pair_id access_token refresh_token a r store).1
      ≡ rows store
unfolding rotate_refresh_pair
rotate-refused formats faults old pair_id access_token refresh_token a r store e h =
    let ready = (ensure_schema faults.schema store).1 in
    ground (
      arith,
      ensure_schema-rows faults.schema store,
      in_transaction-refused faults
          (rotate_rows formats faults old pair_id access_token refresh_token a r) ready e,
    )

pub rotate-done :
    {Url Scope : Type 0} (formats : Formats Url Scope) (faults : Faults)
    → (old pair_id access_token refresh_token : String) (a r : Grant Url Scope)
    → (store : SqliteTokenStore)
    → (rotate_refresh_pair formats faults old pair_id access_token refresh_token a r store).0
      ≡ ok tt
    → rotate_rows formats faults old pair_id access_token refresh_token a r (rows store)
      ≡ ok (
          rows
            (rotate_refresh_pair formats faults old pair_id access_token refresh_token a r store).1)
unfolding rotate_refresh_pair
rotate-done formats faults old pair_id access_token refresh_token a r store h =
    let ready = (ensure_schema faults.schema store).1 in
    ground (
      arith,
      ensure_schema-rows faults.schema store,
      in_transaction-done faults
          (rotate_rows formats faults old pair_id access_token refresh_token a r) ready,
    )
