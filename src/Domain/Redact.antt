-- ===== src/Domain/Redact.antt =====
-- domain/redact.rs: `elide_secret`. `none` is the panic of a slice inside a character.
pub mod Laws
mod Tests
use Prim.Native.Nat.{max}
use Prim.Native.String.{len}
use text.Mathlib.Text.{get?}
use brain.Base.{ℕ, ◌+◌, ◌-◌, ◌/◌, ◌≡◌, refl, String, Option, none, some, ltb, if◌then◌else◌}
use brain.Base.Text.{◌⧺◌}
use brain.Domain.Decimal.{decimal}
use brain.Base.Optional
use brain.Base.Optional.{and_then}

-- The two ends that are shown, joined.
abbrev pub shown : ℕ → String → String → String
shown n a b = a ⧺ "***" ⧺ b ⧺ "(" ⧺ decimal n ⧺ " chars)"

unfoldable pub elide_secret : String → Option String
unfolding decimal
elide_secret s =
    let n = len s in
    let show = max ((n + 9) / 10) 1 in
    if ltb n 6
    then some ("***(" ⧺ decimal n ⧺ " chars)")
    else and_then (get? s 0 show) λ a. Optional.map (λ b. shown n a b) (get? s (n - show) n)
