-- ===== src/Base/Lines.antt =====
-- `str::lines`.
use Prim.Native.Char.{code}
use Prim.Native.String.{String}
use mathlib.Core.Bool.{◌&&◌}
use mathlib.Core.List.{List, [], ◌∷◌}
use brain.Base.Optional
use brain.Base.Tests.{nat_eq, if◌then◌else◌}
use brain.Base.Text.{strip_prefix}

-- `text.lines()`
unfoldable pub lines : String → List String
unfolding strip_prefix
lines String.[] = []
lines (String.◌∷◌ c s) =
    let rest = lines s in
    if nat_eq (code c) 10
    then "" ∷ rest
    else if nat_eq (code c) 13 && Optional.is_some (strip_prefix "\n" s)
    then rest
    else longer rest
  where
    longer : List String → List String
    longer [] = String.◌∷◌ c "" ∷ []
    longer (line ∷ lines) = String.◌∷◌ c line ∷ lines
