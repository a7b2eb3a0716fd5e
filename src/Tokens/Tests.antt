-- ===== src/Tokens/Tests.antt =====
-- The store of tokens at concrete inputs: a pair is issued from an empty file and then rotated.
use brain.Base.{◌≡◌, refl, String, none, some, false, not, [], ◌∷◌, ◌==◌}
use brain.Base.Result.{ok, err}
use brain.Tokens.Grant.{public, private, Extensions, serialize_extensions, deserialize_extensions}
use brain.Tokens.Grant.Laws.{IsMap, restored, get, deserialize-serialize, get-restored}
use brain.Tokens.Table.{Row, select_token, select_refresh_pair}
use brain.Tokens.Store.{SqliteTokenStore, from_path, cleanup_expired}
use brain.Tokens.Issuer.{Call, IssuedToken, issue, refresh_token}
use brain.Tokens.Atomic.{refresh-refused}
use brain.Tokens.Changes.{rows}
use brain.Tokens.Rows.{IsUnique, filter}
use brain.Tokens.Rotation.{refresh-select}
use brain.Tokens.Recovery.{no_faults, IsRecovered, issue-IsRecovered, refresh-IsRecovered}
use brain.Tokens.Cleanup.{cleanup-IsCleaned, IsCleaned}
use brain.Tokens.Reach.{IsReachable, creates, issues, refreshes, reachable-IsUnique}
use brain.Tokens.Spent.{now, cleans, refresh-refused_later}
use brain.Tokens.Samples.{formats, formats-IsFaithful, grant, call, store}

abbrev issued_token : IssuedToken
issued_token = record { token = "tagt"; refresh_token = some "tagtt"; until = 5 }

abbrev issued_store : SqliteTokenStore
issued_store = (issue formats call grant store).1

abbrev rotated_token : IssuedToken
rotated_token = record { token = "tagtttt"; refresh_token = some "tagttttt"; until = 5 }

abbrev rotated_store : SqliteTokenStore
rotated_store = (refresh_token formats call "tagtt" grant issued_store).1

-- The database can be opened, but its transactions are not committed.
abbrev uncommitted : Call String String
uncommitted = record call { faults = record no_faults { commit = some "disk full" } }

issues_pair : (issue formats call grant store).0 ≡ ok issued_token
unfolding issue
issues_pair = refl

rotates_pair : (refresh_token formats call "tagtt" grant issued_store).0 ≡ ok rotated_token
unfolding refresh_token issue
rotates_pair = refl

store-IsReachable : IsReachable formats store
unfolding from_path
store-IsReachable = creates false 0 0 store refl

issued-IsUnique : IsUnique (rows issued_store)
issued-IsUnique =
    reachable-IsUnique formats issued_store (issues call grant store store-IsReachable)

reachable-IsUnique_example : IsUnique (rows rotated_store)
reachable-IsUnique_example =
    reachable-IsUnique formats rotated_store
      (refreshes call "tagtt" grant issued_store (issues call grant store store-IsReachable))

refresh-refused_example :
    rows (refresh_token formats uncommitted "tagtt" grant issued_store).1 ≡ rows issued_store
unfolding refresh_token issue
refresh-refused_example = refresh-refused formats uncommitted grant issued_store "tagtt" refl

abbrev later_store : SqliteTokenStore
later_store = (cleanup_expired formats no_faults 3 rotated_store).1

refresh-refused_later_example : (refresh_token formats call "tagtt" grant later_store).0 ≡ err tt
refresh-refused_later_example =
    refresh-refused_later formats "tagtt" call grant issued_store later_store rotated_token
      "tagttttt" issued-IsUnique rotates_pair refl refl (cleans no_faults 3 rotated_store now) call
      grant

refresh-select_example :
    select_token "tagt" (rows rotated_store)
    ≡ filter (λ (row : Row). not (row.pair_id == "tag")) (select_token "tagt" (rows issued_store))
unfolding select_refresh_pair issue rows
refresh-select_example =
    refresh-select formats call grant issued_store "tagtt" rotated_token "tagttttt" rotates_pair
      refl issued-IsUnique "tag" "tagt" refl refl refl

issue-IsRecovered_example : IsRecovered formats call grant store issued_token "tagtt" issued_store
unfolding IsMap
issue-IsRecovered_example =
    issue-IsRecovered formats call grant store formats-IsFaithful (refl, tt) issued_token "tagtt"
      issues_pair refl

refresh-IsRecovered_example :
    IsRecovered formats call grant issued_store rotated_token "tagttttt" rotated_store
unfolding IsMap
refresh-IsRecovered_example =
    refresh-IsRecovered formats call grant issued_store formats-IsFaithful (refl, tt) "tagtt"
      rotated_token "tagttttt" rotates_pair refl

cleanup-IsCleaned_example :
    IsCleaned formats no_faults 9 issued_store
      (select_token "tagt" (rows issued_store))
      (select_token "tagt" (rows (cleanup_expired formats no_faults 9 issued_store).1))
unfolding cleanup_expired issue
cleanup-IsCleaned_example =
    cleanup-IsCleaned formats no_faults 9 issued_store refl issued-IsUnique "tagt"

deserialize-serialize_example :
    deserialize_extensions formats "ppkce" ≡ ok (restored (("pkce", public none) ∷ []))
unfolding serialize_extensions IsMap
deserialize-serialize_example =
    deserialize-serialize formats formats-IsFaithful (("pkce", public none) ∷ []) "ppkce" (refl, tt)
      refl

abbrev two_extensions : Extensions
two_extensions = ("a", private (some "x")) ∷ ("b", public none) ∷ []

get-restored_example : get "a" (restored two_extensions) ≡ get "a" two_extensions
unfolding IsMap
get-restored_example = get-restored "a" two_extensions (refl, (refl, tt))
