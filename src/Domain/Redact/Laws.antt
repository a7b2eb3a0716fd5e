-- ===== src/Domain/Redact/Laws.antt =====
-- What `elide_secret` of domain/redact.rs shows of a secret.
use Prim.Native.Nat.{max}
use Prim.Native.String.{len}
use text.Mathlib.Text.{get?}
use text.Mathlib.TextPositions.{len-append, get?-append_middle}
use brain.Base.{ℕ, ◌+◌, ◌-◌, ◌/◌, ◌≤◌, ◌≡◌, refl, String, some, false, ltb, arith}
use text.Mathlib.TextLemmas.{nil-append, append-nil, append_assoc}
use brain.Base.Text.{◌⧺◌}
use brain.Domain.Decimal.{decimal}
use brain.Domain.Redact.{elide_secret}

-- A slice of a text at the places where its parts meet.
get?-part :
    (s before part after : String) (from until : ℕ)
    → s ≡ before ⧺ part ⧺ after
    → from ≡ len before
    → until ≡ len before + len part
    → get? s from until ≡ some part
get?-part s before part after from until split starts ends =
    rw (split, starts, ends) (get?-append_middle before part after)

module _ (front middle back : String) where
  abbrev size : ℕ
  size = len (front ⧺ middle ⧺ back)

  size-parts : size ≡ len front + (len middle + len back)
  size-parts = rw (len-append front (middle ⧺ back), len-append middle back) refl

  front-shown :
      len front ≡ (size + 9) / 10 → get? (front ⧺ middle ⧺ back) 0 (len front) ≡ some front
  front-shown h =
      get?-part (front ⧺ middle ⧺ back) "" front (middle ⧺ back) 0 (len front) (rw nil-append refl)
        refl (omega arith)

  back-shown : get? (front ⧺ middle ⧺ back) (size - len back) size ≡ some back
  back-shown =
      let joined = len-append front middle in
      get?-part (front ⧺ middle ⧺ back) (front ⧺ middle) back "" (size - len back) size
        (rw (append-nil, append_assoc) refl) (ground (arith, size-parts, joined))
        (ground (arith, size-parts, joined))

  -- A secret of at least six bytes whose first and last tenth, rounded up, are whole characters is
  -- elided to these two parts around three stars, with its size in bytes. What is not shown has at
  -- least as many bytes as what is shown.
  pub elide_secret-Hides :
      6 ≤ len (front ⧺ middle ⧺ back)
      → len front ≡ (len (front ⧺ middle ⧺ back) + 9) / 10
      → len back ≡ (len (front ⧺ middle ⧺ back) + 9) / 10
      → (elide_secret (front ⧺ middle ⧺ back)
          ≡ some (front ⧺ "***" ⧺ back ⧺ "(" ⧺ decimal (len (front ⧺ middle ⧺ back)) ⧺ " chars)"))
        × (len front + len back ≤ len middle)
  unfolding elide_secret
  elide_secret-Hides long f b =
      let is_long : ltb size 6 ≡ false = ground (arith, long) in
      let cut : max ((size + 9) / 10) 1 ≡ len front = omega arith in
      let same : len front ≡ len back = omega arith in
      let there = front-shown f in
      let here : get? (front ⧺ middle ⧺ back) (size - len front) size ≡ some back =
        rw same back-shown in
      (rw (elide_secret, is_long, cut, there, here) refl, omega (arith, size-parts))
