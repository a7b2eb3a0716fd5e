-- ===== src/Tokens/Spent.antt =====
-- The refresh token that a `refresh` exchanged, in the table after later calls.
use brain.Base.{
  ◌≡◌, ◌≢◌, refl, ℕ, String, none, some, Bool, false, not, List, [], ◌∷◌, ◌++◌, ◌==◌, arith, keep,
  Bool-cases, inl, inr,
}
use brain.Base.Text.{text_eq_sound}
use brain.Base.Result.{Result, ok, err}
use brain.Tokens.Grant.{Grant, Formats, token_kind_to_str}
use brain.Tokens.Table.{Row, select_refresh_pair, delete_pair, delete_expired, is_expired}
use brain.Tokens.Transaction.{Faults}
use brain.Tokens.Store.{SqliteTokenStore, cleanup_expired}
use brain.Tokens.Issuer.{
  Call, IssuedToken, usage_after, draw_tags, issue, refresh_token, recover_token, recover_refresh,
}
use brain.Tokens.Atomic.{
  refresh_of, IsPlaced, issue-refused, issue-IsPlaced, refresh-refused, refresh-IsRotated,
}
use brain.Tokens.Changes.{rows}
use brain.Tokens.Rows.{IsUnique}
use brain.Tokens.Pair.{insert_pair-IsPair}
use brain.Tokens.Rotation.{refresh-unknown, refresh_pair-gone}
use brain.Tokens.Cleanup.{cleanup-rows, cleanup-refused}
use brain.Tokens.Reach.{recover_token-rows, recover_refresh-rows}

-- The token is not in the table as a refresh token.
abbrev IsSpent : String → List Row → Type 0
IsSpent token table = select_refresh_pair token table ≡ none

IsSpent-keep :
    (token : String) (q : Row → Bool) (table : List Row)
    → IsSpent token table
    → IsSpent token (keep q table)
unfolding select_refresh_pair
IsSpent-keep token q [] h = refl
IsSpent-keep token q (row ∷ rest) h = ground (arith, IsSpent-keep token q rest)

IsSpent-access :
    (token : String) (row : Row) (table : List Row)
    → (row.kind == "refresh") ≡ false
    → IsSpent token table
    → IsSpent token (table ++ row ∷ [])
unfolding select_refresh_pair
IsSpent-access token row [] k h = ground (arith, k)
IsSpent-access token row (first ∷ rest) k h = ground (arith, IsSpent-access token row rest k)

IsSpent-other :
    (token : String) (row : Row) (table : List Row)
    → (row.token == token) ≡ false
    → IsSpent token table
    → IsSpent token (table ++ row ∷ [])
unfolding select_refresh_pair
IsSpent-other token row [] k h = ground (arith, k)
IsSpent-other token row (first ∷ rest) k h = ground (arith, IsSpent-other token row rest k)

module _ {Url Scope : Type 0} (formats : Formats Url Scope) (old : String) where
  -- The generator does not draw the old token in this call.
  abbrev pub IsFresh : Call Url Scope → Type 0
  IsFresh call = (usage : ℕ) (grant : Grant Url Scope) → call.tag usage grant ≢ some old

  -- The calls between two states of the store, none of which draws the old token.
  pub data IsLater (start : SqliteTokenStore) : SqliteTokenStore → Type 0 where
    now : IsLater start start
    issues :
        (call : Call Url Scope) (grant : Grant Url Scope) (store : SqliteTokenStore)
        → IsFresh call
        → IsLater start store
        → IsLater start (issue formats call grant store).1
    refreshes :
        (call : Call Url Scope) (token : String) (grant : Grant Url Scope)
        (store : SqliteTokenStore)
        → IsFresh call
        → IsLater start store
        → IsLater start (refresh_token formats call token grant store).1
    recovers :
        (faults : Faults) (token : String) (store : SqliteTokenStore)
        → IsLater start store
        → IsLater start (recover_token formats faults token store).1
    recovers_refresh :
        (faults : Faults) (token : String) (store : SqliteTokenStore)
        → IsLater start store
        → IsLater start (recover_refresh formats faults token store).1
    cleans :
        (faults : Faults) (now_secs : ℕ) (store : SqliteTokenStore)
        → IsLater start store
        → IsLater start (cleanup_expired formats faults now_secs store).1

  module _ (call : Call Url Scope) (grant : Grant Url Scope) (store : SqliteTokenStore) where
    issue-drawn :
        (token : IssuedToken)
        → (issue formats call grant store).0 ≡ ok token
        → token.refresh_token ≡ call.tag (usage_after 2 store) (refresh_of formats call store grant)
    unfolding issue draw_tags
    issue-drawn token h = ground arith

    refresh-drawn :
        (token_before : String) (token : IssuedToken)
        → (refresh_token formats call token_before grant store).0 ≡ ok token
        → token.refresh_token ≡ call.tag (usage_after 2 store) (refresh_of formats call store grant)
    unfolding refresh_token draw_tags
    refresh-drawn token_before token h = ground arith

    IsSpent-placed :
        (token : IssuedToken) (before after : List Row)
        → IsFresh call
        → token.refresh_token ≡ call.tag (usage_after 2 store) (refresh_of formats call store grant)
        → IsPlaced formats call grant store token before after
        → IsSpent old before
        → IsSpent old after
    unfolding token_kind_to_str
    IsSpent-placed token before after fresh drawn p spent =
        let pair = insert_pair-IsPair formats call.faults _ _ _ _ _ before after p.placed in
        let other : (p.tags.refresh_token == old) ≡ false =
          elim (Bool-cases (p.tags.refresh_token == old)) [
            | inl same ↦ absurd (
                fresh (usage_after 2 store) (refresh_of formats call store grant)
                  (ground (arith, drawn, p.token_of, text_eq_sound p.tags.refresh_token old same)))
            | inr differ ↦ differ
          ] in
        rw pair.second.added (
          IsSpent-other old _ pair.with_access other
            (rw pair.first.added (IsSpent-access old _ before refl spent)))

    IsSpent-issue :
        IsFresh call
        → IsSpent old (rows store)
        → (result : Result Unit IssuedToken) → (issue formats call grant store).0 ≡ result
        → IsSpent old (rows (issue formats call grant store).1)
    IsSpent-issue fresh spent (err tt) r = rw (issue-refused formats call grant store r) spent
    IsSpent-issue fresh spent (ok token) r =
        IsSpent-placed token (rows store) _ fresh (issue-drawn token r)
          (issue-IsPlaced formats call grant store token r) spent

    IsSpent-refresh :
        IsFresh call
        → IsSpent old (rows store)
        → (before : String) (result : Result Unit IssuedToken)
        → (refresh_token formats call before grant store).0 ≡ result
        → IsSpent old (rows (refresh_token formats call before grant store).1)
    unfolding delete_pair
    IsSpent-refresh fresh spent before (err tt) r =
        rw (refresh-refused formats call grant store before r) spent
    IsSpent-refresh fresh spent before (ok token) r =
        let rotated = refresh-IsRotated formats call grant store before token r in
        IsSpent-placed token (delete_pair rotated.old_pair_id (rows store)) _ fresh
          (refresh-drawn before token r) rotated.new_pair
          (IsSpent-keep old (λ (row : Row). not (row.pair_id == rotated.old_pair_id)) (rows store)
            spent)

  IsSpent-cleanup :
      (faults : Faults) (now_secs : ℕ) (store : SqliteTokenStore)
      → IsSpent old (rows store)
      → (result : Result _ Unit) → (cleanup_expired formats faults now_secs store).0 ≡ result
      → IsSpent old (rows (cleanup_expired formats faults now_secs store).1)
  unfolding delete_expired
  IsSpent-cleanup faults now_secs store spent (ok tt) r =
      rw (cleanup-rows formats faults now_secs store r)
        (IsSpent-keep old (λ (row : Row). not (is_expired formats now_secs row)) (rows store) spent)
  IsSpent-cleanup faults now_secs store spent (err e) r =
      rw (cleanup-refused formats faults now_secs store e r) spent

  IsSpent-later :
      (start store : SqliteTokenStore)
      → IsSpent old (rows start)
      → IsLater start store
      → IsSpent old (rows store)
  IsSpent-later start _ spent now = spent
  IsSpent-later start _ spent (issues call grant store fresh later) =
      IsSpent-issue call grant store fresh (IsSpent-later start store spent later) _ refl
  IsSpent-later start _ spent (refreshes call token grant store fresh later) =
      IsSpent-refresh call grant store fresh (IsSpent-later start store spent later) token _ refl
  IsSpent-later start _ spent (recovers faults token store later) =
      rw (recover_token-rows formats faults token store) (IsSpent-later start store spent later)
  IsSpent-later start _ spent (recovers_refresh faults token store later) =
      rw (recover_refresh-rows formats faults token store) (IsSpent-later start store spent later)
  IsSpent-later start _ spent (cleans faults now_secs store later) =
      IsSpent-cleanup faults now_secs store (IsSpent-later start store spent later) _ refl

  -- A refresh token that was exchanged once is refused for ever: after a `refresh` that succeeded,
  -- and after any later calls with any failures, another `refresh` with the old token fails. The
  -- tokens of the table were distinct, and the generator never draws the old token again.
  pub refresh-refused_later :
      (call : Call Url Scope) (grant : Grant Url Scope) (store later : SqliteTokenStore)
      (token : IssuedToken) (new_refresh : String)
      → IsUnique (rows store)
      → (refresh_token formats call old grant store).0 ≡ ok token
      → token.refresh_token ≡ some new_refresh
      → (new_refresh == old) ≡ false
      → IsLater (refresh_token formats call old grant store).1 later
      → (call_again : Call Url Scope) (grant_again : Grant Url Scope)
      → (refresh_token formats call_again old grant_again later).0 ≡ err tt
  refresh-refused_later call grant store later token new_refresh unique done refreshed other steps
        call_again grant_again =
      let spent =
        refresh_pair-gone formats call grant store old token new_refresh done refreshed unique
          other in
      refresh-unknown formats call grant store call_again grant_again later old _ refl
        (IsSpent-later _ later spent steps)
