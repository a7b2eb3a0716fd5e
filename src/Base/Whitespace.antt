-- ===== src/Base/Whitespace.antt =====
-- `str::trim`, `str::contains`, `str::replace` and `join` over the native texts.
use Prim.Native.Char.{code}
use Prim.Native.String.{String, [], ◌∷◌}
use Prim.Native.Nat.{ℕ}
use mathlib.Core.Bool.{Bool, ◌||◌, ◌&&◌}
use mathlib.Core.List.{List}
use brain.Base.Optional.{is_some}
use brain.Base.Text.{◌⧺◌, is_empty, split_once}
use brain.Base.Tests.{leb, nat_eq, if◌then◌else◌}

-- `char::is_whitespace`: the White_Space property of Unicode.
abbrev pub is_whitespace : ℕ → Bool
is_whitespace c =
    (leb 0x9 c && leb c 0xd)
    || nat_eq c 0x20
    || nat_eq c 0x85
    || nat_eq c 0xa0
    || nat_eq c 0x1680
    || (leb 0x2000 c && leb c 0x200a)
    || nat_eq c 0x2028
    || nat_eq c 0x2029
    || nat_eq c 0x202f
    || nat_eq c 0x205f
    || nat_eq c 0x3000

abbrev trim_end : String → String
trim_end [] = ""
trim_end (c ∷ s) =
    let rest = trim_end s in if is_empty rest && is_whitespace (code c) then "" else c ∷ rest

abbrev trim_start : String → String
trim_start [] = ""
trim_start (c ∷ s) = let rest = trim_start s in if is_whitespace (code c) then rest else c ∷ s

unfoldable pub trim : String → String
trim s = trim_end (trim_start s)

-- `s.contains(p)`, with the part first.
unfoldable pub contains : String → String → Bool
unfolding split_once
contains p s = is_some (split_once p s)

-- `value.replace(c, text)`, for a character given by its code.
unfoldable pub replace : ℕ → String → String → String
replace k text [] = ""
replace k text (c ∷ s) =
    let rest = replace k text s in if nat_eq (code c) k then text ⧺ rest else c ∷ rest

-- `parts.join(separator)`, with the separator first.
abbrev pub join : String → List String → String
join separator List.[] = ""
join separator (List.◌∷◌ s List.[]) = s
join separator (List.◌∷◌ s rest) = s ⧺ separator ⧺ join separator rest
