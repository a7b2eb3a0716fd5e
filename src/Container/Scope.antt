-- ===== src/Container/Scope.antt =====
-- The identity of an installation in crates/platform/src/container/startup.rs: `installation_scope_id`
-- and the hash of its two paths. Hashes are numbers below 2 ^ 64.
pub mod Digits
use Prim.Native.Nat.{bit_xor}
use Prim.Native.String
use brain.Base.{
  ℕ, zero, suc, ◌+◌, ◌*◌, ◌/◌, ◌%◌, ◌^◌, String, Option, List, [], ◌∷◌, ◌++◌, ltb, flat_map,
  if◌then◌else◌,
}
use brain.Base.Optional.{get_or}
use brain.Base.Text.{◌⧺◌, codes}

-- The bytes of a character in UTF-8.
abbrev pub utf8 : ℕ → List ℕ
utf8 c =
    if ltb c 0x80
    then c ∷ []
    else (if ltb c 0x800
        then (0xc0 + c / 64) ∷ (0x80 + c % 64) ∷ []
        else (if ltb c 0x10000
            then (0xe0 + c / 4096) ∷ (0x80 + c / 64 % 64) ∷ (0x80 + c % 64) ∷ []
            else (0xf0 + c / 262144)
              ∷ (0x80 + c / 4096 % 64)
              ∷ (0x80 + c / 64 % 64)
              ∷ (0x80 + c % 64)
              ∷ []))

abbrev pub as_bytes : String → List ℕ
as_bytes s = flat_map utf8 (codes s)

abbrev pub offset_basis : ℕ
offset_basis = 0xcbf29ce484222325

abbrev pub prime : ℕ
prime = 0x100000001b3

-- The loop of `fnv1a64`.
unfoldable pub fnv_from : ℕ → List ℕ → ℕ
fnv_from hash [] = hash
fnv_from hash (byte ∷ bytes) = fnv_from (bit_xor hash byte * prime % 2 ^ 64) bytes

unfoldable pub fnv1a64 : List ℕ → ℕ
unfolding fnv_from
fnv1a64 bytes = fnv_from offset_basis bytes

-- The character at an index, as a text of its own.
abbrev pub char_at : ℕ → String → String
char_at n String.[] = ""
char_at zero (String.◌∷◌ c s) = String.◌∷◌ c ""
char_at (suc n) (String.◌∷◌ c s) = char_at n s

abbrev pub hex_digit : ℕ → String
hex_digit d = char_at d "0123456789abcdef"

-- `{:016x}` of a number that 16 digits hold: as many digits as the first argument says.
unfoldable pub hex : ℕ → ℕ → String
hex zero n = ""
hex (suc k) n = hex k (n / 16) ⧺ hex_digit (n % 16)

-- `canonicalize` asks the file system, and fails with `none`.
module _ (canonicalize : String → Option String) where
  abbrev pub normalize_scope_path : String → String
  normalize_scope_path path = get_or (canonicalize path) path

  abbrev pub scope_text : String → String → String
  scope_text app_home env_file =
      "app_home=" ⧺ normalize_scope_path app_home ⧺ "\nenv_file=" ⧺ normalize_scope_path env_file

  unfoldable pub installation_scope_id : String → String → String
  unfolding fnv1a64 hex
  installation_scope_id app_home env_file =
      "b3-" ⧺ hex 16 (fnv1a64 (as_bytes (scope_text app_home env_file)))
