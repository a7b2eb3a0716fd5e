-- ===== src/Tokens/Pair.antt =====
-- The rows that the two INSERTs of a pair add.
use brain.Base.{
  ◌≡◌, refl, ap, inl, inr, String, some, Bool, false, List, [], ◌∷◌, ◌++◌, ◌==◌, any, arith,
  eq_refl, Bool-cases,
}
use brain.Base.Text.{text_eq_sound}
use brain.Base.Result.{Result, ok, err}
use brain.Tokens.Grant.{
  TokenStoreError, access, refresh, Grant, TokenRow, Formats, serialize_extensions,
}
use brain.Tokens.Table.{Row, Fault, select_token, insert_token_row, row_of}
use brain.Tokens.Transaction.{Faults, insert_pair}
use brain.Tokens.Rows.{has_token, IsUnique, insert_row-ok, select-append, find-none}

any-append :
    (p : Row → Bool) (rows : List Row) (row : Row)
    → any p rows ≡ false
    → p row ≡ false
    → any p (rows ++ row ∷ []) ≡ false
any-append p [] row h k = ground arith
any-append p (r ∷ rest) row h k = ground (arith, any-append p rest row)

text_eq-flip : (s t : String) → (s == t) ≡ false → (t == s) ≡ false
text_eq-flip s t h = ground (arith, text_eq_sound t s)

pub IsUnique-insert :
    (row : Row) (rows : List Row)
    → any (has_token row.token) rows ≡ false
    → IsUnique rows
    → IsUnique (rows ++ row ∷ [])
unfolding IsUnique
IsUnique-insert row [] h u = (refl, tt)
IsUnique-insert row (r ∷ rest) h u = (
  any-append (has_token r.token) rest row u.0 (text_eq-flip r.token row.token (ground arith)),
  IsUnique-insert row rest (ground arith) u.1,
)

module _ {Url Scope : Type 0} (formats : Formats Url Scope) where
  -- The row that an INSERT of `token_row` adds to `rows`.
  pub record IsInserted (token : String) (token_row : TokenRow Url Scope) (rows after : List Row)
      : Type 0 where
    pub extensions_json : String
    pub serialized : serialize_extensions formats token_row.grant.extensions ≡ ok extensions_json
    pub fresh : any (has_token token) rows ≡ false
    pub added : after ≡ rows ++ row_of formats token token_row extensions_json ∷ []

  insert_token_row-from :
      (fault : Fault) (token : String) (token_row : TokenRow Url Scope) (rows after : List Row)
      → (serialized : Result TokenStoreError String)
      → serialize_extensions formats token_row.grant.extensions ≡ serialized
      → insert_token_row formats fault token token_row rows ≡ ok after
      → IsInserted token token_row rows after
  unfolding insert_token_row
  insert_token_row-from fault token token_row rows after (err e) s h = absurd (ground arith)
  insert_token_row-from fault token token_row rows after (ok json) s h =
      let inserted =
        insert_row-ok (row_of formats token token_row json) rows after (ground arith) in
      record { extensions_json = json; serialized = s; fresh = inserted.0; added = inserted.1 }

  pub insert_token_row-IsInserted :
      (fault : Fault) (token : String) (token_row : TokenRow Url Scope) (rows after : List Row)
      → insert_token_row formats fault token token_row rows ≡ ok after
      → IsInserted token token_row rows after
  insert_token_row-IsInserted fault token token_row rows after =
      insert_token_row-from fault token token_row rows after
        (serialize_extensions formats token_row.grant.extensions) refl

  module _ (faults : Faults) (pair_id access_token refresh_token : String)
      (access_grant refresh_grant : Grant Url Scope) where
    -- The two rows of a pair, one after the other.
    pub record IsPair (rows after : List Row) : Type 0 where
      pub with_access : List Row
      pub first :
          IsInserted access_token
            (record { pair_id = pair_id; kind = access; grant = access_grant })
            rows
            with_access
      pub second :
          IsInserted refresh_token
            (record { pair_id = pair_id; kind = refresh; grant = refresh_grant })
            with_access
            after

    insert_pair-from :
        (rows after : List Row) (first : Result TokenStoreError (List Row))
        → insert_token_row formats faults.insert_access access_token
            (record { pair_id = pair_id; kind = access; grant = access_grant })
            rows
          ≡ first
        → insert_pair formats faults pair_id access_token refresh_token access_grant refresh_grant
            rows
          ≡ ok after
        → IsPair rows after
    unfolding insert_pair
    insert_pair-from rows after (err e) f h = absurd (ground arith)
    insert_pair-from rows after (ok with_access) f h = record {
      with_access = with_access;
      first = insert_token_row-IsInserted faults.insert_access access_token _ rows with_access f;
      second =
          insert_token_row-IsInserted faults.insert_refresh refresh_token _ with_access after
            (ground arith);
    }

    pub insert_pair-IsPair :
        (rows after : List Row)
        → insert_pair formats faults pair_id access_token refresh_token access_grant refresh_grant
            rows
          ≡ ok after
        → IsPair rows after
    insert_pair-IsPair rows after = insert_pair-from rows after _ refl

  pub IsUnique-inserted :
      (token : String) (token_row : TokenRow Url Scope) (rows after : List Row)
      → IsInserted token token_row rows after
      → IsUnique rows
      → IsUnique after
  IsUnique-inserted token token_row rows after i u =
      rw i.added (IsUnique-insert (row_of formats token token_row i.extensions_json) rows i.fresh u)

  pub select-other :
      (token : String) (token_row : TokenRow Url Scope) (rows after : List Row) (t : String)
      → IsInserted token token_row rows after
      → (token == t) ≡ false
      → select_token t after ≡ select_token t rows
  unfolding select_token
  select-other token token_row rows after t i h =
      let row = row_of formats token token_row i.extensions_json in
      rw (i.added, select-append t rows (row ∷ [])) ground arith

  pub select-inserted :
      (token : String) (token_row : TokenRow Url Scope) (rows after : List Row)
      → (i : IsInserted token token_row rows after)
      → select_token token after ≡ some (row_of formats token token_row i.extensions_json)
  unfolding select_token
  select-inserted token token_row rows after i =
      let row = row_of formats token token_row i.extensions_json in
      rw (i.added, select-append token rows (row ∷ []), find-none token rows i.fresh) ground
        (arith, eq_refl token)

  -- The tokens of a pair differ.
  pub tokens-differ :
      (a r : String) (first second : TokenRow Url Scope) (rows with_access after : List Row)
      → IsInserted a first rows with_access
      → IsInserted r second with_access after
      → (r == a) ≡ false
  tokens-differ a r first second rows with_access after i j = elim (Bool-cases (r == a)) [
    | inl same ↦ absurd (
        ground (
          arith,
          select-inserted a first rows with_access i,
          find-none r with_access j.fresh,
          ap (λ (t : String). select_token t with_access) (text_eq_sound r a same),
        ))
    | inr differ ↦ differ
  ]
