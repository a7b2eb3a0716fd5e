-- ===== src/Base/Text.antt =====
-- What the source uses of `str`, over the native texts: prefixes, suffixes, searches, the case of
-- ASCII letters. Texts are walked by characters.
use Prim.Native.Nat.{ℕ, ◌+◌}
use Prim.Native.Char.{Char, code}
use Prim.Native.String
use Prim.Native.String.{String, [], ◌∷◌}
use mathlib.Core.Path.{◌≡◌, refl, ap, sym}
use mathlib.Core.Bool.{Bool, true, false, ◌&&◌}
use mathlib.Core.Logic.{inl, inr}
use brain.Base.Optional
use mathlib.Core.Option.{Option, none, some}
use mathlib.Core.List.{List}
use native.Mathlib.Omega.{arith}
use text.Mathlib.Text.{◌==◌}
use text.Mathlib.TextEquality.{path_by_compare}
use text.Mathlib.TextEquality.{Char-path}
use text.Mathlib.TextLemmas.{nil-append, cons-append}
use brain.Base.Tests.{leb, nat_eq, nat_eq→eq, if◌then◌else◌, Bool-cases, Option-cases}

infixr 66 ◌⧺◌
-- `format!`: one text after another.
abbrev pub ◌⧺◌ : String → String → String
s ⧺ t = String.◌++◌ s t

abbrev pub char_eq : Char → Char → Bool
char_eq c d = nat_eq (code c) (code d)

pub char_eq_refl : (c : Char) → char_eq c c ≡ true
char_eq_refl c = ground arith

pub char_eq→eq : (c d : Char) → char_eq c d ≡ true → c ≡ d
char_eq→eq c d h = Char-path c d (nat_eq→eq (code c) (code d) h)

-- `str::is_empty`
abbrev pub is_empty : String → Bool
is_empty [] = true
is_empty (c ∷ s) = false

-- `s.strip_prefix(p)`, with the prefix first.
unfoldable pub strip_prefix : String → String → Option String
strip_prefix [] s = some s
strip_prefix (c ∷ p) [] = none
strip_prefix (c ∷ p) (d ∷ s) = if char_eq c d then strip_prefix p s else none

-- A prefix is stripped exactly from the texts that begin with it.
pub strip_prefix-append : (p s : String) → strip_prefix p (p ⧺ s) ≡ some s
unfolding strip_prefix
strip_prefix-append [] s = rw nil-append
strip_prefix-append (c ∷ p) s = rw (cons-append, char_eq_refl c) (strip_prefix-append p s)

pub strip_prefix_sound : (p s : String) {t : String} → strip_prefix p s ≡ some t → s ≡ p ⧺ t
unfolding strip_prefix
strip_prefix_sound [] s h = rw nil-append (ground arith)
strip_prefix_sound (c ∷ p) [] h = ground arith
strip_prefix_sound (c ∷ p) (d ∷ s) {t} h = elim (Bool-cases (char_eq c d)) [
  | inl same ↦
      rw (cons-append, ← strip_prefix_sound p s {t = t} (ground arith), char_eq→eq c d same)
  | inr other ↦ ground arith
]

-- `s.strip_suffix(p)`, with the suffix first.
unfoldable pub strip_suffix : String → String → Option String
strip_suffix p [] = if p == "" then some "" else none
strip_suffix p (c ∷ s) =
    let rest = Optional.map (λ t. c ∷ t) (strip_suffix p s) in if c ∷ s == p then some "" else rest

-- `s.split_once(p)`, with the separator first: the parts around its first occurrence.
unfoldable pub split_once : String → String → Option (String × String)
unfolding strip_prefix
split_once p [] = Optional.map (λ rest. ("", rest)) (strip_prefix p "")
split_once p (c ∷ s) = elim (strip_prefix p (c ∷ s)) [
  | some rest ↦ some ("", rest)
  | none ↦ Optional.map (λ parts. (c ∷ parts.0, parts.1)) (split_once p s)
]

-- The longest beginning without a character of `stop`, and the rest: `find` with `unwrap_or(len)`.
unfoldable pub break : (ℕ → Bool) → String → String × String
break stop [] = ("", "")
break stop (c ∷ s) =
    let parts = break stop s in if stop (code c) then ("", c ∷ s) else (c ∷ parts.0, parts.1)

-- `s.trim_end_matches(c)` and `s.trim_start_matches(c)`, for a character given by its code.
unfoldable pub trim_end_matches : ℕ → String → String
trim_end_matches k [] = ""
trim_end_matches k (c ∷ s) =
    let rest = trim_end_matches k s in if is_empty rest && nat_eq (code c) k then "" else c ∷ rest

unfoldable pub trim_start_matches : ℕ → String → String
trim_start_matches k [] = ""
trim_start_matches k (c ∷ s) =
    let rest = trim_start_matches k s in if nat_eq (code c) k then rest else c ∷ s

-- The code points of a text.
abbrev pub codes : String → List ℕ
codes [] = List.[]
codes (c ∷ s) = List.◌∷◌ (code c) (codes s)

-- `u8::to_ascii_lowercase`
abbrev pub ascii_lower : ℕ → ℕ
ascii_lower c = if leb b'A' c && leb c b'Z' then c + 32 else c

-- `a.eq_ignore_ascii_case(b)`
unfoldable pub eq_ignore_ascii_case : String → String → Bool
eq_ignore_ascii_case [] [] = true
eq_ignore_ascii_case [] (d ∷ t) = false
eq_ignore_ascii_case (c ∷ s) [] = false
eq_ignore_ascii_case (c ∷ s) (d ∷ t) =
    nat_eq (ascii_lower (code c)) (ascii_lower (code d)) && eq_ignore_ascii_case s t

-- A character of `str::to_lowercase`, as far as a comparison with a text of ASCII letters can tell:
-- of the other characters only the Kelvin sign has an ASCII text for its lower case.
abbrev pub lower : ℕ → ℕ
lower c = if nat_eq c 0x212A then b'k' else ascii_lower c

-- `s.to_lowercase() == word`, for a word of ASCII characters.
unfoldable pub lowercase_is : String → String → Bool
lowercase_is [] [] = true
lowercase_is [] (d ∷ t) = false
lowercase_is (c ∷ s) [] = false
lowercase_is (c ∷ s) (d ∷ t) = nat_eq (lower (code c)) (code d) && lowercase_is s t

-- `s.to_ascii_lowercase() == word`
unfoldable pub ascii_lowercase_is : String → String → Bool
ascii_lowercase_is [] [] = true
ascii_lowercase_is [] (d ∷ t) = false
ascii_lowercase_is (c ∷ s) [] = false
ascii_lowercase_is (c ∷ s) (d ∷ t) =
    nat_eq (ascii_lower (code c)) (code d) && ascii_lowercase_is s t

-- Texts that are equal up to case are equal up to case to the same texts.
pub eq_ignore_ascii_case_congr :
    (s t w : String)
    → eq_ignore_ascii_case s t ≡ true
    → eq_ignore_ascii_case s w ≡ eq_ignore_ascii_case t w
unfolding eq_ignore_ascii_case
eq_ignore_ascii_case_congr [] [] w h = refl
eq_ignore_ascii_case_congr [] (d ∷ t) w h = ground arith
eq_ignore_ascii_case_congr (c ∷ s) [] w h = ground arith
eq_ignore_ascii_case_congr (c ∷ s) (d ∷ t) [] h = refl
eq_ignore_ascii_case_congr (c ∷ s) (d ∷ t) (e ∷ w) h =
    ground (arith, eq_ignore_ascii_case_congr s t w)

-- A text that `to_lowercase` and `to_ascii_lowercase` leave as it is.
abbrev pub is_lowercase : String → Bool
is_lowercase [] = true
is_lowercase (c ∷ s) = nat_eq (lower (code c)) (code c) && is_lowercase s

-- A name that equals a lower-case word up to the case of letters is also found by lowering it.
pub lowercase_is_of_ignore_case :
    (s t : String)
    → is_lowercase t ≡ true
    → eq_ignore_ascii_case s t ≡ true
    → lowercase_is s t ≡ true
unfolding eq_ignore_ascii_case lowercase_is
lowercase_is_of_ignore_case [] [] l h = refl
lowercase_is_of_ignore_case [] (d ∷ t) l h = ground arith
lowercase_is_of_ignore_case (c ∷ s) [] l h = ground arith
lowercase_is_of_ignore_case (c ∷ s) (d ∷ t) l h = ground (arith, lowercase_is_of_ignore_case s t)

pub ascii_lowercase_is_of_ignore_case :
    (s t : String)
    → is_lowercase t ≡ true
    → eq_ignore_ascii_case s t ≡ true
    → ascii_lowercase_is s t ≡ true
unfolding eq_ignore_ascii_case ascii_lowercase_is
ascii_lowercase_is_of_ignore_case [] [] l h = refl
ascii_lowercase_is_of_ignore_case [] (d ∷ t) l h = ground arith
ascii_lowercase_is_of_ignore_case (c ∷ s) [] l h = ground arith
ascii_lowercase_is_of_ignore_case (c ∷ s) (d ∷ t) l h =
    ground (arith, ascii_lowercase_is_of_ignore_case s t)

pub eq_ignore_ascii_case_refl : (s : String) → eq_ignore_ascii_case s s ≡ true
unfolding eq_ignore_ascii_case
eq_ignore_ascii_case_refl [] = refl
eq_ignore_ascii_case_refl (c ∷ s) = ground (arith, eq_ignore_ascii_case_refl s)

-- The parts of a split, joined by the separator, are the text.
pub split_once-append :
    (p s : String) {a b : String} → split_once p s ≡ some (a, b) → a ⧺ (p ⧺ b) ≡ s
unfolding split_once
split_once-append p [] {a} {b} h = elim (Option-cases (strip_prefix p "")) [
  | inl missed ↦ ground arith
  | inr (rest, found) ↦
      let e : a ≡ "" = ground arith in
      let e' : b ≡ rest = ground arith in
      rw (e, e', nil-append) (sym (strip_prefix_sound p "" found))
]
split_once-append p (c ∷ s) {a} {b} h = elim (Option-cases (strip_prefix p (c ∷ s))) [
  | inr (rest, found) ↦
      let e : a ≡ "" = ground arith in
      let e' : b ≡ rest = ground arith in
      rw (e, e', nil-append) (sym (strip_prefix_sound p (c ∷ s) found))
  | inl missed ↦ elim (Option-cases (split_once p s)) [
    | inl none_left ↦ ground arith
    | inr (parts, found) ↦
        let e : a ≡ c ∷ parts.0 = ground arith in
        let e' : b ≡ parts.1 = ground arith in
        rw (e, e', cons-append) (ap (λ t. c ∷ t) (split_once-append p s found))
  ]
]

-- The parts of a break are the text.
pub break-append : (stop : ℕ → Bool) (s : String) → (break stop s).0 ⧺ (break stop s).1 ≡ s
unfolding break
break-append stop [] = nil-append ""
break-append stop (c ∷ s) = elim (Bool-cases (stop (code c))) [
  | inl stopped ↦ rw (stopped, nil-append)
  | inr more ↦ rw (more, cons-append, break-append stop s)
]

-- Texts that are equal up to the case of letters have the same lower case.
pub lowercase_is_congr :
    (s t w : String) → eq_ignore_ascii_case s t ≡ true → lowercase_is s w ≡ lowercase_is t w
unfolding eq_ignore_ascii_case lowercase_is
lowercase_is_congr [] [] w h = refl
lowercase_is_congr [] (d ∷ t) w h = ground arith
lowercase_is_congr (c ∷ s) [] w h = ground arith
lowercase_is_congr (c ∷ s) (d ∷ t) [] h = refl
lowercase_is_congr (c ∷ s) (d ∷ t) (x ∷ w) h = ground (arith, lowercase_is_congr s t w)

-- Texts that the test `==` says are equal are equal.
pub text_eq_sound : (s t : String) → (s == t) ≡ true → s ≡ t
text_eq_sound s t h = ground (arith, path_by_compare s t)
