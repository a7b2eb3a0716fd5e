-- ===== src/Http/Auth.antt =====
-- The access token of a request: its reading and its validation against the token store.
use brain.Base.{ℕ, ◌/◌, String, Option, none, some, Bool, not, ◌||◌, ◌==◌, leb, if◌then◌else◌}
use brain.Base.Optional.{get_or}
use brain.Base.Result.{Result, ok, err}
use brain.Base.Io.{Io}
use brain.Base.Text.{split_once, eq_ignore_ascii_case, is_empty}
use brain.Domain.{ProxyError, unauthorized}
use brain.Http.Headers.{HeaderMap, header_text}
use brain.Tokens.Grant.{Grant, Formats}
use brain.Tokens.Transaction.{Faults}
use brain.Tokens.Store.{SqliteTokenStore}
use brain.Tokens.Issuer.{recover_token}

abbrev pub invalid_token : ProxyError
invalid_token = unauthorized "Missing or invalid bearer token"

unfoldable pub parse_bearer_token : HeaderMap → Result ProxyError String
unfolding split_once eq_ignore_ascii_case
parse_bearer_token headers =
    let parts =
      get_or (split_once " " (get_or (header_text "authorization" headers) "")) ("", "") in
    if not (eq_ignore_ascii_case parts.0 "bearer") || is_empty parts.1
    then err invalid_token
    else ok parts.1

-- The comparison takes the same time for all texts of one length; its answer is that of `==`.
unfoldable pub constant_time_eq : String → String → Bool
constant_time_eq expected provided = expected == provided

module _ {Url Scope : Type 0} (formats : Formats Url Scope) (faults : Faults) (now_unix : ℕ) where
  -- `grant.until.timestamp() <= now_unix`, in seconds.
  abbrev pub is_expired_grant : Grant Url Scope → Bool
  is_expired_grant grant = leb (grant.until / 1000000000) now_unix

  abbrev pub checked_grant :
      Result Unit (Option (Grant Url Scope)) × SqliteTokenStore
      → Result ProxyError Unit × SqliteTokenStore
  checked_grant (ok (some grant), store) =
      (if is_expired_grant grant then err invalid_token else ok tt, store)
  checked_grant (ok none, store) = (err invalid_token, store)
  checked_grant (err e, store) = (err invalid_token, store)

  unfoldable pub validate_access_token : HeaderMap → Io SqliteTokenStore ProxyError Unit
  unfolding parse_bearer_token recover_token
  validate_access_token headers store = elim (parse_bearer_token headers) [
    | err error ↦ (err error, store)
    | ok token ↦ checked_grant (recover_token formats faults token store)
  ]
