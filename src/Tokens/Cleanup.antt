-- ===== src/Tokens/Cleanup.antt =====
-- The rows of the table before and after `cleanup_expired`.
use brain.Base.{
  ◌≡◌, refl, ◌⊎◌, inl, inr, ℕ, ◌<◌, ◌≤◌, String, Option, none, some, not, Bool-cases, ltb, arith,
}
use brain.Base.Result.{Result, ok, err}
use brain.Tokens.Grant.{TokenStoreError, Formats}
use brain.Tokens.Table.{Row, select_token, is_expired, delete_expired}
use brain.Tokens.Transaction.{Faults}
use brain.Tokens.Store.{SqliteTokenStore, cleanup_expired}
use brain.Tokens.Changes.{rows, stored, ensure_schema-rows}
use brain.Tokens.Rows.{IsUnique, IsUnique-keep, filter, select-keep}

module _ {Url Scope : Type 0} (formats : Formats Url Scope) (faults : Faults) (now_secs : ℕ)
    (store : SqliteTokenStore) where
  pub cleanup-rows :
      (cleanup_expired formats faults now_secs store).0 ≡ ok tt
      → rows (cleanup_expired formats faults now_secs store).1
        ≡ delete_expired formats now_secs (rows store)
  unfolding cleanup_expired rows stored
  cleanup-rows h = ground (arith, ensure_schema-rows faults.schema store)

  pub cleanup-refused :
      (e : TokenStoreError)
      → (cleanup_expired formats faults now_secs store).0 ≡ err e
      → rows (cleanup_expired formats faults now_secs store).1 ≡ rows store
  unfolding cleanup_expired rows stored
  cleanup-refused e h = ground (arith, ensure_schema-rows faults.schema store)

  -- A row after the cleanup, for the time at which it expires, in seconds: it is gone if that time is
  -- before now, and stays as it is if it is now or later, or if there is no such time.
  abbrev pub IsKept : Option ℕ → Row → Option Row → Type 0
  IsKept none row after = after ≡ some row
  IsKept (some secs) row after =
      ((secs < now_secs) × (after ≡ none)) ⊎ ((now_secs ≤ secs) × (after ≡ some row))

  abbrev pub IsCleaned : Option Row → Option Row → Type 0
  IsCleaned none after = after ≡ none
  IsCleaned (some row) after = IsKept (formats.strftime row.expires_at) row after

  row-IsKept :
      (row : Row) (secs : Option ℕ)
      → formats.strftime row.expires_at ≡ secs
      → IsKept secs row (filter (λ (r : Row). not (is_expired formats now_secs r)) (some row))
  row-IsKept row none e = ground (arith, e)
  row-IsKept row (some secs) e = elim (Bool-cases (ltb secs now_secs)) [
    | inl past ↦ inl (ground arith, ground (arith, e, past))
    | inr later ↦ inr (ground arith, ground (arith, e, later))
  ]

  filter-IsCleaned :
      (before : Option Row)
      → IsCleaned before (filter (λ (r : Row). not (is_expired formats now_secs r)) before)
  filter-IsCleaned none = refl
  filter-IsCleaned (some row) = row-IsKept row (formats.strftime row.expires_at) refl

  -- After a cleanup that succeeded, a token whose time to expire was before now is not found any
  -- more, and every other token is found exactly as it was before. The tokens of the table are
  -- distinct.
  pub cleanup-IsCleaned :
      (cleanup_expired formats faults now_secs store).0 ≡ ok tt
      → IsUnique (rows store)
      → (token : String)
      → IsCleaned
          (select_token token (rows store))
          (select_token token (rows (cleanup_expired formats faults now_secs store).1))
  unfolding delete_expired
  cleanup-IsCleaned h u token =
      rw
        (
          cleanup-rows h,
          select-keep token (λ (row : Row). not (is_expired formats now_secs row)) (rows store) u,
        )
        (filter-IsCleaned (select_token token (rows store)))

  cleanup-IsUnique_of :
      (result : Result TokenStoreError Unit)
      → (cleanup_expired formats faults now_secs store).0 ≡ result
      → IsUnique (rows store)
      → IsUnique (rows (cleanup_expired formats faults now_secs store).1)
  unfolding delete_expired
  cleanup-IsUnique_of (ok tt) r u =
      rw (cleanup-rows r)
        (IsUnique-keep (λ (row : Row). not (is_expired formats now_secs row)) (rows store) u)
  cleanup-IsUnique_of (err e) r u = rw (cleanup-refused e r) u

  pub cleanup-IsUnique :
      IsUnique (rows store) → IsUnique (rows (cleanup_expired formats faults now_secs store).1)
  cleanup-IsUnique = cleanup-IsUnique_of _ refl
