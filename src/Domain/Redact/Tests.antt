-- ===== src/Domain/Redact/Tests.antt =====
-- The elision of a concrete secret.
use Prim.Native.String.{len}
use brain.Base.{◌+◌, ◌≤◌, ◌≡◌, refl, none, some, arith}
use brain.Domain.Decimal.{decimal}
use brain.Domain.Redact.{elide_secret}
use brain.Domain.Redact.Laws.{elide_secret-Hides}

elide_tests :
    (elide_secret "abc" ≡ some "***(3 chars)")
    × (elide_secret "0123456789" ≡ some "0***9(10 chars)")
    × (elide_secret "ééé" ≡ none)
unfolding elide_secret
elide_tests = (refl, refl, refl)

elide_secret-Hides_example :
    (elide_secret "0123456789" ≡ some "0***9(10 chars)") × (len "0" + len "9" ≤ len "12345678")
unfolding decimal
elide_secret-Hides_example = elide_secret-Hides "0" "12345678" "9" (omega arith) refl refl
