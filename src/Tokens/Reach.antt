-- ===== src/Tokens/Reach.antt =====
-- The stores that a process can come to, from an empty file, by any calls with any failures.
use brain.Base.{◌≡◌, ℕ, String, none, some, Bool, arith}
use brain.Base.Result.{ok}
use brain.Tokens.Grant.{Grant, Formats}
use brain.Tokens.Transaction.{Faults}
use brain.Tokens.Store.{Database, SqliteTokenStore, from_path, load_token, cleanup_expired}
use brain.Tokens.Issuer.{Call, issue, refresh_token, recover_token, recover_refresh}
use brain.Tokens.Changes.{rows, stored, ensure_schema-rows}
use brain.Tokens.Rows.{IsUnique}
use brain.Tokens.Rotation.{issue-IsUnique, refresh-IsUnique}
use brain.Tokens.Cleanup.{cleanup-IsUnique}

module _ {Url Scope : Type 0} (formats : Formats Url Scope) where
  -- Reached by creating or reopening a file and by the operations of the store.
  pub data IsReachable : SqliteTokenStore → Type 0 where
    creates :
        (access_tokens : Bool) (a r : ℕ) (store : SqliteTokenStore)
        → from_path (record { access_tokens = access_tokens; oauth_tokens = none }) a r
          ≡ some (ok store)
        → IsReachable store
    reopens :
        (before : SqliteTokenStore) (a r : ℕ) (store : SqliteTokenStore)
        → IsReachable before
        → from_path before.database a r ≡ some (ok store)
        → IsReachable store
    issues :
        (call : Call Url Scope) (grant : Grant Url Scope) (store : SqliteTokenStore)
        → IsReachable store
        → IsReachable (issue formats call grant store).1
    refreshes :
        (call : Call Url Scope) (old : String) (grant : Grant Url Scope) (store : SqliteTokenStore)
        → IsReachable store
        → IsReachable (refresh_token formats call old grant store).1
    recovers :
        (faults : Faults) (token : String) (store : SqliteTokenStore)
        → IsReachable store
        → IsReachable (recover_token formats faults token store).1
    recovers_refresh :
        (faults : Faults) (token : String) (store : SqliteTokenStore)
        → IsReachable store
        → IsReachable (recover_refresh formats faults token store).1
    cleans :
        (faults : Faults) (now_secs : ℕ) (store : SqliteTokenStore)
        → IsReachable store
        → IsReachable (cleanup_expired formats faults now_secs store).1

  pub recover_token-rows :
      (faults : Faults) (token : String) (store : SqliteTokenStore)
      → rows (recover_token formats faults token store).1 ≡ rows store
  unfolding recover_token load_token rows
  recover_token-rows faults token store = ground (arith, ensure_schema-rows faults.schema store)

  pub recover_refresh-rows :
      (faults : Faults) (token : String) (store : SqliteTokenStore)
      → rows (recover_refresh formats faults token store).1 ≡ rows store
  unfolding recover_refresh load_token rows
  recover_refresh-rows faults token store = ground (arith, ensure_schema-rows faults.schema store)

  from_path-rows :
      (database : Database) (a r : ℕ) (store : SqliteTokenStore)
      → from_path database a r ≡ some (ok store)
      → rows store ≡ stored database.oauth_tokens
  unfolding from_path rows
  from_path-rows database a r store h = ground arith

  -- In every store that a process can come to from an empty file, by any calls in any order with any
  -- failures and any restarts, no two rows have the same token.
  pub reachable-IsUnique : (store : SqliteTokenStore) → IsReachable store → IsUnique (rows store)
  unfolding stored rows IsUnique
  reachable-IsUnique _ (creates access_tokens a r store h) = rw (from_path-rows _ a r store h) tt
  reachable-IsUnique _ (reopens before a r store reached h) =
      rw (from_path-rows before.database a r store h) (reachable-IsUnique before reached)
  reachable-IsUnique _ (issues call grant store reached) =
      issue-IsUnique formats call grant store (reachable-IsUnique store reached)
  reachable-IsUnique _ (refreshes call old grant store reached) =
      refresh-IsUnique formats call grant store old (reachable-IsUnique store reached)
  reachable-IsUnique _ (recovers faults token store reached) =
      rw (recover_token-rows faults token store) (reachable-IsUnique store reached)
  reachable-IsUnique _ (recovers_refresh faults token store reached) =
      rw (recover_refresh-rows faults token store) (reachable-IsUnique store reached)
  reachable-IsUnique _ (cleans faults now_secs store reached) =
      cleanup-IsUnique formats faults now_secs store (reachable-IsUnique store reached)
