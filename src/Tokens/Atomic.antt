-- ===== src/Tokens/Atomic.antt =====
-- The rows before and after `issue` and `refresh`, where they fail and where they return tokens.
use brain.Base.{◌≡◌, refl, inl, inr, String, some, List, Option-cases}
use brain.Base.Result.{Result, ok, err}
use native.Mathlib.Omega.{arith}
use brain.Tokens.Grant.{Grant, Formats, access, refresh}
use brain.Tokens.Table.{Row, select_refresh_pair, delete_pair}
use brain.Tokens.Transaction.{insert_pair, rotate_rows}
use brain.Tokens.Store.{SqliteTokenStore}
use brain.Tokens.Issuer.{
  Call, IssuedToken, PairTags, draw_tags, issued, issue, refresh_token, grant_for_kind,
}
use brain.Tokens.Changes.{issue_pair-done, issue_pair-refused, rotate-done, rotate-refused, rows}

module _ {Url Scope : Type 0} (formats : Formats Url Scope) (call : Call Url Scope) where
  abbrev pub access_of : SqliteTokenStore → Grant Url Scope → Grant Url Scope
  access_of store grant = grant_for_kind formats call store.lifetimes grant access

  abbrev pub refresh_of : SqliteTokenStore → Grant Url Scope → Grant Url Scope
  refresh_of store grant = grant_for_kind formats call store.lifetimes grant refresh

  -- `token` is issued from `store`: the tags that were drawn for it, and the rows `after` that the
  -- INSERTs of its pair make of the rows `before`.
  pub record IsPlaced (grant : Grant Url Scope) (store : SqliteTokenStore) (token : IssuedToken)
      (before after : List Row) : Type 0 where
    pub tags : PairTags
    pub token_of : token ≡ issued formats call tags (access_of store grant)
    pub placed :
        insert_pair formats call.faults tags.pair_id tags.access_token tags.refresh_token
          (access_of store grant)
          (refresh_of store grant)
          before
        ≡ ok after

  draw_tags-rows :
      (grant : Grant Url Scope) (store : SqliteTokenStore)
      → rows (draw_tags formats call grant store).1 ≡ rows store
  unfolding draw_tags rows
  draw_tags-rows grant store = ground arith

  module _ (grant : Grant Url Scope) (store : SqliteTokenStore) where
    -- If `issue` fails, at whatever statement, the rows of the table are as before.
    pub issue-refused :
        (issue formats call grant store).0 ≡ err tt
        → rows (issue formats call grant store).1 ≡ rows store
    unfolding issue draw_tags rows
    issue-refused h = ground (
      arith,
      λ (t : PairTags).
          issue_pair-refused formats call.faults t.pair_id t.access_token t.refresh_token
            (access_of store grant) (refresh_of store grant),
    )

    -- If `refresh` fails, at whatever statement, the rows of the table are as before: the old pair is
    -- still there.
    pub refresh-refused :
        (old : String)
        → (refresh_token formats call old grant store).0 ≡ err tt
        → rows (refresh_token formats call old grant store).1 ≡ rows store
    unfolding refresh_token draw_tags rows
    refresh-refused old h = ground (
      arith,
      λ (t : PairTags).
          rotate-refused formats call.faults old t.pair_id t.access_token t.refresh_token
            (access_of store grant) (refresh_of store grant),
    )

    issue-IsPlaced_from :
        (token : IssuedToken) (drawn : Result Unit PairTags × SqliteTokenStore)
        → draw_tags formats call grant store ≡ drawn
        → (issue formats call grant store).0 ≡ ok token
        → IsPlaced grant store token (rows store) (rows (issue formats call grant store).1)
    unfolding issue
    issue-IsPlaced_from token (err _, drawn) d h = absurd (ground arith)
    issue-IsPlaced_from token (ok t, drawn) d h =
        let done =
          issue_pair-done formats call.faults t.pair_id t.access_token t.refresh_token
            (access_of store grant) (refresh_of store grant) drawn in
        record {
          tags = t;
          token_of = ground arith;
          placed = ground (arith, done, draw_tags-rows grant store);
        }

    pub issue-IsPlaced :
        (token : IssuedToken)
        → (issue formats call grant store).0 ≡ ok token
        → IsPlaced grant store token (rows store) (rows (issue formats call grant store).1)
    issue-IsPlaced token = issue-IsPlaced_from token (draw_tags formats call grant store) refl

    -- A rotation: the old pair was found by its refresh token, and the new one replaces its rows.
    pub record IsRotated (old : String) (token : IssuedToken) (after : List Row) : Type 0 where
      pub old_pair_id : String
      pub found : select_refresh_pair old (rows store) ≡ some old_pair_id
      pub new_pair : IsPlaced grant store token (delete_pair old_pair_id (rows store)) after

    refresh-IsRotated_from :
        (old : String) (token : IssuedToken) (drawn : Result Unit PairTags × SqliteTokenStore)
        → draw_tags formats call grant store ≡ drawn
        → (refresh_token formats call old grant store).0 ≡ ok token
        → IsRotated old token (rows (refresh_token formats call old grant store).1)
    unfolding refresh_token rotate_rows
    refresh-IsRotated_from old token (err _, drawn) d h = absurd (ground arith)
    refresh-IsRotated_from old token (ok t, drawn) d h =
        let done =
          rotate-done formats call.faults old t.pair_id t.access_token t.refresh_token
            (access_of store grant) (refresh_of store grant) drawn in
        elim (Option-cases (select_refresh_pair old (rows store))) [
          | inl missing ↦ absurd (ground (arith, done, draw_tags-rows grant store))
          | inr (p, found) ↦ record {
            old_pair_id = p;
            found = found;
            new_pair = record {
              tags = t;
              token_of = ground arith;
              placed = ground (arith, done, draw_tags-rows grant store);
            };
          }
        ]

    pub refresh-IsRotated :
        (old : String) (token : IssuedToken)
        → (refresh_token formats call old grant store).0 ≡ ok token
        → IsRotated old token (rows (refresh_token formats call old grant store).1)
    refresh-IsRotated old token =
        refresh-IsRotated_from old token (draw_tags formats call grant store) refl
