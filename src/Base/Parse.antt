-- ===== src/Base/Parse.antt =====
-- `str::parse` for unsigned integers, with the texts of its errors, and the parts of a text around a
-- character.
use Prim.Native.Char.{code}
use Prim.Native.String.{String, [], ◌∷◌}
use Prim.Native.Nat.{ℕ, ◌+◌, ◌-◌, ◌*◌, ◌<◌}
use mathlib.Core.Path.{◌≡◌}
use mathlib.Core.Bool.{Bool, ◌&&◌}
use mathlib.Core.Option.{Option, none, some}
use native.Mathlib.Omega.{arith}
use brain.Base.Optional
use brain.Base.Optional.{get_or}
use brain.Base.Result.{Result, ok, err, ok-injective}
use brain.Base.Tests.{ltb, leb, nat_eq, if◌then◌else◌}
use brain.Base.Text.{break}

abbrev is_digit : ℕ → Bool
is_digit c = leb b'0' c && leb c b'9'

-- The digits from the left, each checked before the overflow that it brings.
unfoldable parse_digits : ℕ → ℕ → String → Result String ℕ
parse_digits bound n [] = ok n
parse_digits bound n (c ∷ s) =
    let longer = n * 10 + (code c - b'0') in
    let rest = parse_digits bound longer s in
    if is_digit (code c)
    then (if ltb longer bound then rest else err "number too large to fit in target type")
    else err "invalid digit found in string"

abbrev after_sign : ℕ → String → Result String ℕ
after_sign bound [] = err "invalid digit found in string"
after_sign bound (c ∷ s) = parse_digits bound 0 (c ∷ s)

-- `s.parse()` for the integers below a bound, which is a power of two above 2 ^ 8.
unfoldable pub parse : ℕ → String → Result String ℕ
unfolding parse_digits
parse bound [] = err "cannot parse integer from empty string"
parse bound (c ∷ s) =
    if nat_eq (code c) b'+' then after_sign bound s else parse_digits bound 0 (c ∷ s)

parse_digits_bound :
    (bound n : ℕ) (s : String) (m : ℕ) → n < bound → parse_digits bound n s ≡ ok m → m < bound
unfolding parse_digits
parse_digits_bound bound n [] m below h = ground (arith, ok-injective h)
parse_digits_bound bound n (c ∷ s) m below h =
    ground (arith, parse_digits_bound bound (n * 10 + (code c - b'0')) s m)

pub parse_bound : (bound : ℕ) (s : String) (m : ℕ) → 0 < bound → parse bound s ≡ ok m → m < bound
unfolding parse
parse_bound bound [] m positive h = ground arith
parse_bound bound (c ∷ []) m positive h =
    ground (arith, parse_digits_bound bound 0 (c ∷ []) m positive)
parse_bound bound (c ∷ d ∷ s) m positive h = ground (
  arith,
  parse_digits_bound bound 0 (c ∷ d ∷ s) m positive,
  parse_digits_bound bound 0 (d ∷ s) m positive,
)

-- `s.rsplit_once(k)`, for a character given by its code: the parts around its last occurrence.
abbrev pub rsplit_once : ℕ → String → Option (String × String)
rsplit_once k [] = none
rsplit_once k (c ∷ s) = elim (rsplit_once k s) [
  | some parts ↦ some (c ∷ parts.0, parts.1)
  | none ↦ if nat_eq (code c) k then some ("", s) else none
]

-- `rsplit(k).next()` and `split(k).next()`: there is always one.
abbrev pub last_part : ℕ → String → String
last_part k s = get_or (Optional.map (λ (parts : String × String). parts.1) (rsplit_once k s)) s

unfoldable pub first_part : ℕ → String → String
unfolding break
first_part k s = (break (nat_eq k) s).0
