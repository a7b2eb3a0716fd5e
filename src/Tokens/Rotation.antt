-- ===== src/Tokens/Rotation.antt =====
-- The tokens of the table before and after `refresh`, and the primary key.
use brain.Base.{
  ◌≡◌, refl, ◌∙◌, ap, inl, inr, String, none, some, true, false, not, List, ◌==◌, arith, eq_refl,
  Bool-cases,
}
use brain.Base.Text.{text_eq_sound}
use brain.Base.Result.{Result, ok, err}
use brain.Tokens.Grant.{Grant, Formats, token_kind_to_str}
use brain.Tokens.Table.{Row, select_token, select_refresh_pair, delete_pair}
use brain.Tokens.Store.{SqliteTokenStore}
use brain.Tokens.Issuer.{Call, IssuedToken, issue, refresh_token}
use brain.Tokens.Atomic.{
  IsPlaced, issue-refused, issue-IsPlaced, refresh-refused, refresh-IsRotated,
}
use brain.Tokens.Changes.{rows}
use brain.Tokens.Rows.{IsUnique, IsUnique-keep, filter, select-keep, select_refresh_pair-filter}
use brain.Tokens.Pair.{insert_pair-IsPair, IsUnique-inserted, select-other, select-inserted}

module _ {Url Scope : Type 0} (formats : Formats Url Scope) (call : Call Url Scope)
    (grant : Grant Url Scope) (store : SqliteTokenStore) where
  IsUnique-placed :
      (token : IssuedToken) (before after : List Row)
      → IsPlaced formats call grant store token before after
      → IsUnique before
      → IsUnique after
  IsUnique-placed token before after p u =
      let pair = insert_pair-IsPair formats call.faults _ _ _ _ _ before after p.placed in
      IsUnique-inserted formats _ _ pair.with_access after pair.second
        (IsUnique-inserted formats _ _ before pair.with_access pair.first u)

  issue-IsUnique_of :
      (result : Result Unit IssuedToken)
      → (issue formats call grant store).0 ≡ result
      → IsUnique (rows store)
      → IsUnique (rows (issue formats call grant store).1)
  issue-IsUnique_of (err tt) r u = rw (issue-refused formats call grant store r) u
  issue-IsUnique_of (ok token) r u =
      IsUnique-placed token (rows store) _ (issue-IsPlaced formats call grant store token r) u

  pub issue-IsUnique : IsUnique (rows store) → IsUnique (rows (issue formats call grant store).1)
  issue-IsUnique = issue-IsUnique_of _ refl

  refresh-IsUnique_of :
      (old : String) (result : Result Unit IssuedToken)
      → (refresh_token formats call old grant store).0 ≡ result
      → IsUnique (rows store)
      → IsUnique (rows (refresh_token formats call old grant store).1)
  unfolding delete_pair
  refresh-IsUnique_of old (err tt) r u = rw (refresh-refused formats call grant store old r) u
  refresh-IsUnique_of old (ok token) r u =
      let rotated = refresh-IsRotated formats call grant store old token r in
      IsUnique-placed token (delete_pair rotated.old_pair_id (rows store)) _ rotated.new_pair
        (IsUnique-keep (λ (row : Row). not (row.pair_id == rotated.old_pair_id)) (rows store) u)

  pub refresh-IsUnique :
      (old : String)
      → IsUnique (rows store)
      → IsUnique (rows (refresh_token formats call old grant store).1)
  refresh-IsUnique old = refresh-IsUnique_of old _ refl

  -- A lookup of another token is not changed by the rows of the new pair.
  select-placed :
      (token : IssuedToken) (before after : List Row)
      → IsPlaced formats call grant store token before after
      → (t new_refresh : String) → token.refresh_token ≡ some new_refresh
      → (token.token == t) ≡ false
      → (new_refresh == t) ≡ false
      → select_token t after ≡ select_token t before
  select-placed token before after p t new_refresh r a b =
      let pair = insert_pair-IsPair formats call.faults _ _ _ _ _ before after p.placed in
      select-other formats _ _ pair.with_access after t pair.second (ground (arith, p.token_of))
      ∙ select-other formats _ _ before pair.with_access t pair.first (ground (arith, p.token_of))

  pub refresh-unknown :
      (call_again : Call Url Scope) (grant_again : Grant Url Scope) (later : SqliteTokenStore)
      → (old : String) (result : Result Unit IssuedToken)
      → (refresh_token formats call_again old grant_again later).0 ≡ result
      → select_refresh_pair old (rows later) ≡ none
      → (refresh_token formats call_again old grant_again later).0 ≡ err tt
  refresh-unknown call_again grant_again later old (err tt) r gone = r
  refresh-unknown call_again grant_again later old (ok again) r gone =
      absurd
        (ground (arith, (refresh-IsRotated formats call_again grant_again later old again r).found))

  module _ (old : String) (token : IssuedToken) (new_refresh : String)
      (done : (refresh_token formats call old grant store).0 ≡ ok token)
      (refreshed : token.refresh_token ≡ some new_refresh) (unique : IsUnique (rows store)) where
    -- After a `refresh` that succeeded, of the tokens that are not in the new pair, those of the old
    -- pair are gone and the others are found as before. The tokens of the table were distinct.
    pub refresh-select :
        (pair : String) (t : String)
        → select_refresh_pair old (rows store) ≡ some pair
        → (token.token == t) ≡ false
        → (new_refresh == t) ≡ false
        → select_token t (rows (refresh_token formats call old grant store).1)
          ≡ filter (λ (row : Row). not (row.pair_id == pair)) (select_token t (rows store))
    unfolding delete_pair
    refresh-select pair t found a b =
        let rotated = refresh-IsRotated formats call grant store old token done in
        let same_pair : rotated.old_pair_id ≡ pair = ground (arith, rotated.found) in
        select-placed token (delete_pair rotated.old_pair_id (rows store)) _ rotated.new_pair t
          new_refresh refreshed a b
        ∙ select-keep t (λ (row : Row). not (row.pair_id == rotated.old_pair_id)) (rows store)
            unique
        ∙ ap
            (λ (p : String).
              filter (λ (row : Row). not (row.pair_id == p)) (select_token t (rows store)))
            same_pair

    access-not_refresh :
        (token.token == old) ≡ true
        → (new_refresh == old) ≡ false
        → select_refresh_pair old (rows (refresh_token formats call old grant store).1) ≡ none
    unfolding token_kind_to_str
    access-not_refresh same other =
        let rotated = refresh-IsRotated formats call grant store old token done in
        let p = rotated.new_pair in
        let pair = insert_pair-IsPair formats call.faults _ _ _ _ _ _ _ p.placed in
        let is_access : old ≡ p.tags.access_token =
          ground (arith, p.token_of, text_eq_sound token.token old) in
        let found =
          select-other formats _ _ pair.with_access _ old pair.second (ground (arith, p.token_of))
          ∙ ap (λ (t : String). select_token t pair.with_access) is_access
          ∙ select-inserted formats _ _ _ pair.with_access pair.first in
        rw
          (
            select_refresh_pair-filter old (rows (refresh_token formats call old grant store).1)
                (refresh-IsUnique old unique),
            found,
          )
          refl

    kept-not_refresh :
        (token.token == old) ≡ false
        → (new_refresh == old) ≡ false
        → select_refresh_pair old (rows (refresh_token formats call old grant store).1) ≡ none
    kept-not_refresh differ other =
        let rotated = refresh-IsRotated formats call grant store old token done in
        rw
          (
            select_refresh_pair-filter old (rows (refresh_token formats call old grant store).1)
                (refresh-IsUnique old unique),
            refresh-select rotated.old_pair_id old rotated.found differ other,
          )
          ground
          (
            arith,
            rotated.found,
            select_refresh_pair-filter old (rows store) unique,
            eq_refl rotated.old_pair_id,
          )

    pub refresh_pair-gone :
        (new_refresh == old) ≡ false
        → select_refresh_pair old (rows (refresh_token formats call old grant store).1) ≡ none
    refresh_pair-gone other = elim (Bool-cases (token.token == old)) [
      | inl same ↦ access-not_refresh same other
      | inr differ ↦ kept-not_refresh differ other
    ]
