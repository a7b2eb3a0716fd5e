-- ===== src/Domain/Decimal.antt =====
-- The decimal text of a number, as `format!` writes it.
use brain.Base.{ℕ, zero, suc, ◌/◌, ◌%◌, ◌≡◌, refl, String, ltb, if◌then◌else◌}
use brain.Base.Text.{◌⧺◌}

abbrev digit : ℕ → String
digit zero = "0"
digit (suc zero) = "1"
digit (suc (suc zero)) = "2"
digit (suc (suc (suc zero))) = "3"
digit (suc (suc (suc (suc zero)))) = "4"
digit (suc (suc (suc (suc (suc zero))))) = "5"
digit (suc (suc (suc (suc (suc (suc zero)))))) = "6"
digit (suc (suc (suc (suc (suc (suc (suc zero))))))) = "7"
digit (suc (suc (suc (suc (suc (suc (suc (suc zero)))))))) = "8"
digit _ = "9"

-- The fuel `n + 1` is enough: each round divides by ten.
decimal_from : ℕ → ℕ → String
decimal_from zero n = ""
decimal_from (suc fuel) n =
    let longer = decimal_from fuel (n / 10) ⧺ digit (n % 10) in if ltb n 10 then digit n else longer

unfoldable pub decimal : ℕ → String
unfolding decimal_from
decimal n = decimal_from (suc n) n

decimal_tests : (decimal 0 ≡ "0") × (decimal 404 ≡ "404") × (decimal 1290 ≡ "1290")
unfolding decimal
decimal_tests = (refl, refl, refl)
