-- ===== src/Tokens/Rows.antt =====
-- Rows found by their tokens: the primary key, and what INSERT and DELETE change for a lookup.
use native.Mathlib.Omega.{arith}
use brain.Base.{
  ◌≡◌, refl, inl, inr, String, Option, none, some, Bool, false, List, [], ◌∷◌, ◌++◌, ◌==◌, any,
  keep, if◌then◌else◌, Bool-cases,
}
use brain.Base.Optional
use brain.Base.Text.{text_eq_sound}
use brain.Base.Result.{ok}
use brain.Tokens.Table.{Row, select_token, select_refresh_pair, insert_row}

abbrev pub has_token : String → Row → Bool
has_token token row = row.token == token

-- No two rows have the same token.
unfoldable pub IsUnique : List Row → Type 0
IsUnique [] = Unit
IsUnique (row ∷ rest) = (any (has_token row.token) rest ≡ false) × IsUnique rest

-- `Option::filter`
abbrev pub filter : {A : Type 0} → (A → Bool) → Option A → Option A
filter p none = none
filter p (some a) = if p a then some a else none

pub find-none :
    (token : String) (rows : List Row)
    → any (has_token token) rows ≡ false
    → select_token token rows ≡ none
unfolding select_token
find-none token [] h = refl
find-none token (row ∷ rest) h = ground (arith, find-none token rest)

pub any-keep :
    (p q : Row → Bool) (rows : List Row) → any p rows ≡ false → any p (keep q rows) ≡ false
any-keep p q [] h = refl
any-keep p q (row ∷ rest) h = ground (arith, any-keep p q rest)

pub IsUnique-keep : (q : Row → Bool) (rows : List Row) → IsUnique rows → IsUnique (keep q rows)
unfolding IsUnique
IsUnique-keep q [] h = tt
IsUnique-keep q (row ∷ rest) h = elim (Bool-cases (q row)) [
  | inl kept ↦ rw kept (any-keep (has_token row.token) q rest h.0, IsUnique-keep q rest h.1)
  | inr dropped ↦ rw dropped (IsUnique-keep q rest h.1)
]

-- A lookup among the rows that are kept.
pub select-keep :
    (token : String) (q : Row → Bool) (rows : List Row)
    → IsUnique rows
    → select_token token (keep q rows) ≡ filter q (select_token token rows)
unfolding select_token IsUnique
select-keep token q [] u = refl
select-keep token q (row ∷ rest) u = ground (
  arith,
  text_eq_sound row.token token,
  select-keep token q rest u.1,
  find-none token (keep q rest),
  any-keep (has_token token) q rest,
)

refresh_pair-none :
    (token : String) (rows : List Row)
    → any (has_token token) rows ≡ false
    → select_refresh_pair token rows ≡ none
unfolding select_refresh_pair
refresh_pair-none token [] h = refl
refresh_pair-none token (row ∷ rest) h = ground (arith, refresh_pair-none token rest)

pub select_refresh_pair-filter :
    (token : String) (rows : List Row)
    → IsUnique rows
    → select_refresh_pair token rows
      ≡ Optional.map
          (λ (row : Row). row.pair_id)
          (filter (λ (row : Row). row.kind == "refresh") (select_token token rows))
unfolding select_token select_refresh_pair IsUnique
select_refresh_pair-filter token [] u = refl
select_refresh_pair-filter token (row ∷ rest) u = ground (
  arith,
  text_eq_sound row.token token,
  select_refresh_pair-filter token rest u.1,
  refresh_pair-none token rest,
  find-none token rest,
)

pub select-append :
    (token : String) (rows more : List Row)
    → select_token token (rows ++ more)
      ≡ Optional.or_else (select_token token rows) (select_token token more)
unfolding select_token
select-append token [] more = refl
select-append token (row ∷ rest) more = ground (arith, select-append token rest more)

-- What an INSERT does that succeeds.
pub insert_row-ok :
    (row : Row) (rows after : List Row)
    → insert_row row rows ≡ ok after
    → (any (has_token row.token) rows ≡ false) × (after ≡ rows ++ row ∷ [])
unfolding insert_row
insert_row-ok row rows after h = ground arith
