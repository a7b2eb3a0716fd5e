-- ===== src/Tokens/Issuer.antt =====
-- `impl Issuer for SqliteTokenStore`: to issue, to refresh and to recover tokens. What a call meets
-- outside the store is its argument: the clock, the random generator and the failures.
use brain.Base.{ℕ, ◌+◌, ◌*◌, ◌%◌, ◌^◌, String, Option, none, some}
use brain.Base.Result.{ok, err}
use brain.Base.Io
use brain.Base.Io.{Io, ◌>>=◌, ◌>>◌, pure, lift}
use brain.Tokens.Grant.{TokenKind, access, refresh, Grant, Formats}
use brain.Tokens.Transaction.{Faults}
use brain.Tokens.Store.{
  TokenLifetimes, SqliteTokenStore, issue_pair, rotate_refresh_pair, load_token,
}

-- `IssuedToken` and `RefreshedToken`, which have the same fields; the type is always `Bearer`.
pub record IssuedToken : Type 0 where
  pub token : String
  pub refresh_token : Option String
  pub until : ℕ

-- One call: the two readings of the clock, in nanoseconds, what `RandomGenerator::tag` draws for a
-- counter and a grant, and the failures of the database.
pub record Call (Url Scope : Type 0) : Type 0 where
  pub now_access : ℕ
  pub now_refresh : ℕ
  pub tag : ℕ → Grant Url Scope → Option String
  pub faults : Faults

-- The tags of a pair.
pub record PairTags : Type 0 where
  pub pair_id : String
  pub access_token : String
  pub refresh_token : String

-- `usage.wrapping_add(n)`
abbrev pub usage_after : ℕ → SqliteTokenStore → ℕ
usage_after n store = (store.usage + n) % 2 ^ 64

abbrev advanced : SqliteTokenStore → SqliteTokenStore
advanced store = record {
  schema_ready = store.schema_ready;
  lifetimes = store.lifetimes;
  usage = usage_after 3 store;
  database = store.database;
}

module _ {Url Scope : Type 0} (formats : Formats Url Scope) (call : Call Url Scope) where
  abbrev until : Grant Url Scope → ℕ → ℕ → Grant Url Scope
  until grant now secs = record {
    owner_id = grant.owner_id;
    client_id = grant.client_id;
    redirect_uri = grant.redirect_uri;
    scope = grant.scope;
    until = now + secs * 1000000000;
    extensions = grant.extensions;
  }

  unfoldable pub grant_for_kind : TokenLifetimes → Grant Url Scope → TokenKind → Grant Url Scope
  grant_for_kind lifetimes grant access = until grant call.now_access lifetimes.access_secs
  grant_for_kind lifetimes grant refresh = until grant call.now_refresh lifetimes.refresh_secs

  -- The three calls of `generator.tag`, after which the counter moves on by three.
  unfoldable pub draw_tags : Grant Url Scope → Io SqliteTokenStore Unit PairTags
  unfolding grant_for_kind
  draw_tags grant store =
      let access_grant = grant_for_kind store.lifetimes grant access in
      let refresh_grant = grant_for_kind store.lifetimes grant refresh in
      elim (call.tag store.usage refresh_grant) [
        | none ↦ (err tt, store)
        | some pair_id ↦ elim (call.tag (usage_after 1 store) access_grant) [
          | none ↦ (err tt, store)
          | some access_token ↦ elim (call.tag (usage_after 2 store) refresh_grant) [
            | none ↦ (err tt, store)
            | some refresh_token ↦ (
              ok (record {
                pair_id = pair_id;
                access_token = access_token;
                refresh_token = refresh_token;
              }),
              advanced store,
            )
          ]
        ]
      ]

  abbrev pub issued : PairTags → Grant Url Scope → IssuedToken
  issued tags access_grant = record {
    token = tags.access_token;
    refresh_token = some tags.refresh_token;
    until = access_grant.until;
  }

  unfoldable pub issue : Grant Url Scope → Io SqliteTokenStore Unit IssuedToken
  unfolding draw_tags grant_for_kind issue_pair
  issue grant store =
      let access_grant = grant_for_kind store.lifetimes grant access in
      let refresh_grant = grant_for_kind store.lifetimes grant refresh in
      (do
        tags ← draw_tags grant
        Io.map_err (λ _. tt)
            (issue_pair formats call.faults tags.pair_id tags.access_token tags.refresh_token
              access_grant refresh_grant)
        pure (issued tags access_grant))
        store

  -- `Issuer::refresh`
  unfoldable pub refresh_token : String → Grant Url Scope → Io SqliteTokenStore Unit IssuedToken
  unfolding draw_tags grant_for_kind rotate_refresh_pair
  refresh_token old_refresh_token grant store =
      let access_grant = grant_for_kind store.lifetimes grant access in
      let refresh_grant = grant_for_kind store.lifetimes grant refresh in
      (do
        tags ← draw_tags grant
        Io.map_err (λ _. tt)
            (rotate_refresh_pair formats call.faults old_refresh_token tags.pair_id
              tags.access_token tags.refresh_token access_grant refresh_grant)
        pure (issued tags access_grant))
        store

module _ {Url Scope : Type 0} (formats : Formats Url Scope) (faults : Faults) where
  unfoldable pub recover_token : String → Io SqliteTokenStore Unit (Option (Grant Url Scope))
  unfolding load_token
  recover_token token = Io.map_err (λ _. tt) (load_token formats faults token access)

  unfoldable pub recover_refresh : String → Io SqliteTokenStore Unit (Option (Grant Url Scope))
  unfolding load_token
  recover_refresh token = Io.map_err (λ _. tt) (load_token formats faults token refresh)
