-- ===== src/Tokens/Transaction.antt =====
-- The transactions of the store on the rows of the table: the statements that issue a pair of tokens
-- and that replace one, between `begin` and `commit`.
use brain.Base.{String, List}
use brain.Base.Result
use brain.Base.Result.{Result, ok, err, ◌>>=◌, ◌>>◌}
use brain.Tokens.Grant.{TokenStoreError, unavailable, access, refresh, Grant, Formats}
use brain.Tokens.Table.{
  Row, Table, Fault, checked, rows_of, select_refresh_pair, delete_pair, insert_token_row,
}

-- Where a run of the schema, or of a transaction, may fail from outside.
pub record SchemaFaults : Type 0 where
  pub connect : Fault
  pub drop : Fault
  pub create : Fault
  pub index : Fault

pub record Faults : Type 0 where
  pub schema : SchemaFaults
  pub connect : Fault
  pub begin : Fault
  pub select : Fault
  pub delete : Fault
  pub insert_access : Fault
  pub insert_refresh : Fault
  pub commit : Fault

-- `conn.begin()` … `tx.commit()`: what the statements made of the rows, if all succeeded.
unfoldable pub transaction :
    Faults
    → (List Row → Result TokenStoreError (List Row))
    → Table
    → Result TokenStoreError (List Row)
transaction faults statements table = do
  checked faults.connect
  checked faults.begin
  rows ← rows_of table
  changed ← statements rows
  checked faults.commit
  ok changed

module _ {Url Scope : Type 0} (formats : Formats Url Scope) where
  -- The two INSERTs of a pair.
  unfoldable pub insert_pair :
      Faults
      → String
      → String
      → String
      → Grant Url Scope
      → Grant Url Scope
      → List Row
      → Result TokenStoreError (List Row)
  unfolding insert_token_row
  insert_pair faults pair_id access_token refresh_token access_grant refresh_grant rows = do
    with_access ←
        insert_token_row formats faults.insert_access access_token
          (record { pair_id = pair_id; kind = access; grant = access_grant }) rows
    insert_token_row formats faults.insert_refresh refresh_token
        (record { pair_id = pair_id; kind = refresh; grant = refresh_grant }) with_access

  -- The statements of `rotate_refresh_pair`.
  unfoldable pub rotate_rows :
      Faults
      → String
      → String
      → String
      → String
      → Grant Url Scope
      → Grant Url Scope
      → List Row
      → Result TokenStoreError (List Row)
  unfolding select_refresh_pair delete_pair insert_pair
  rotate_rows faults old_refresh_token pair_id access_token refresh_token access_grant refresh_grant
        rows =
      do
        checked faults.select
        old_pair_id ←
            Result.ok_or (unavailable "refresh token not found")
              (select_refresh_pair old_refresh_token rows)
        checked faults.delete
        insert_pair faults pair_id access_token refresh_token access_grant refresh_grant
            (delete_pair old_pair_id rows)
