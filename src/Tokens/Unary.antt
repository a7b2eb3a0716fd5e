-- ===== src/Tokens/Unary.antt =====
-- Numbers written in unary, which is a text format of times that is easy to read back.
use Prim.Native.Nat.{ℕ, zero, suc}
use Prim.Native.String.{String, [], ◌∷◌}
use brain.Base.{Option, none, some, ◌≡◌, refl, ap}

abbrev pub unary : ℕ → String
unary zero = ""
unary (suc n) = "t" ∷ unary n

abbrev pub from_unary : String → ℕ
from_unary [] = 0
from_unary (c ∷ s) = suc (from_unary s)

pub from_unary-unary : (n : ℕ) → from_unary (unary n) ≡ n
from_unary-unary zero = refl
from_unary-unary (suc n) = ap suc (from_unary-unary n)

-- A text with a tag before it, and the text behind the tag.
abbrev pub tagged : String → String
tagged s = "p" ∷ s

abbrev pub untagged : String → Option String
untagged [] = none
untagged (c ∷ s) = some s
