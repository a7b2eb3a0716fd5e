-- ===== src/Container/Scope/Digits.antt =====
-- The digits of an installation's identity.
use Prim.Native.Char.{code}
use brain.Base.{
  ℕ, zero, suc, ◌+◌, ◌*◌, ◌-◌, ◌/◌, ◌%◌, ◌^◌, ◌<◌, ◌≡◌, refl, String, Option, List, [], ◌∷◌, arith,
  ltb, if◌then◌else◌,
}
use brain.Base.Optional.{get_or}
use brain.Base.Text.{◌⧺◌}
use brain.Container.Scope.{
  as_bytes, scope_text, offset_basis, fnv_from, fnv1a64, hex_digit, hex, installation_scope_id,
}
use text.Mathlib.TextLemmas.{nil-append, cons-append}

-- What a text of hexadecimal digits stands for, read from the left on top of `n`.
abbrev pub read_hex : ℕ → String → ℕ
read_hex n String.[] = n
read_hex n (String.◌∷◌ c s) =
    read_hex (16 * n + (if ltb (code c) b'a' then code c - b'0' else code c - b'a' + 10)) s

abbrev pub size : String → ℕ
size String.[] = 0
size (String.◌∷◌ c s) = suc (size s)

-- A digit is one character, and is read back.
read_hex_digit : (d n : ℕ) → d < 16 → read_hex n (hex_digit d) ≡ 16 * n + d
read_hex_digit zero n h = omega arith
read_hex_digit (suc zero) n h = omega arith
read_hex_digit (suc (suc zero)) n h = omega arith
read_hex_digit (suc (suc (suc zero))) n h = omega arith
read_hex_digit (suc (suc (suc (suc zero)))) n h = omega arith
read_hex_digit (suc (suc (suc (suc (suc zero))))) n h = omega arith
read_hex_digit (suc (suc (suc (suc (suc (suc zero)))))) n h = omega arith
read_hex_digit (suc (suc (suc (suc (suc (suc (suc zero))))))) n h = omega arith
read_hex_digit (suc (suc (suc (suc (suc (suc (suc (suc zero)))))))) n h = omega arith
read_hex_digit (suc (suc (suc (suc (suc (suc (suc (suc (suc zero))))))))) n h = omega arith
read_hex_digit (suc (suc (suc (suc (suc (suc (suc (suc (suc (suc zero)))))))))) n h = omega arith
read_hex_digit (suc (suc (suc (suc (suc (suc (suc (suc (suc (suc (suc zero))))))))))) n h =
    omega arith
read_hex_digit (suc (suc (suc (suc (suc (suc (suc (suc (suc (suc (suc (suc zero)))))))))))) n h =
    omega arith
read_hex_digit (suc (suc (suc (suc (suc (suc (suc (suc (suc (suc (suc (suc (suc zero))))))))))))) n
      h =
    omega arith
read_hex_digit
      (suc (suc (suc (suc (suc (suc (suc (suc (suc (suc (suc (suc (suc (suc zero)))))))))))))) n h =
    omega arith
read_hex_digit
      (suc (suc (suc (suc (suc (suc (suc (suc (suc (suc (suc (suc (suc (suc (suc zero)))))))))))))))
      n h =
    omega arith
read_hex_digit
      (suc
        (suc (suc (suc (suc (suc (suc (suc (suc (suc (suc (suc (suc (suc (suc (suc k))))))))))))))))
      n h =
    absurd (omega arith)

read_hex-append : (s t : String) (n : ℕ) → read_hex n (s ⧺ t) ≡ read_hex (read_hex n s) t
read_hex-append String.[] t n = rw nil-append
read_hex-append (String.◌∷◌ c s) t n = rw cons-append (read_hex-append s t _)

size-append : (s t : String) → size (s ⧺ t) ≡ size s + size t
size-append String.[] t = rw nil-append (omega arith)
size-append (String.◌∷◌ c s) t = rw cons-append (omega (arith, size-append s t))

size-hex_digit : (d : ℕ) → d < 16 → size (hex_digit d) ≡ 1
size-hex_digit zero h = refl
size-hex_digit (suc zero) h = refl
size-hex_digit (suc (suc zero)) h = refl
size-hex_digit (suc (suc (suc zero))) h = refl
size-hex_digit (suc (suc (suc (suc zero)))) h = refl
size-hex_digit (suc (suc (suc (suc (suc zero))))) h = refl
size-hex_digit (suc (suc (suc (suc (suc (suc zero)))))) h = refl
size-hex_digit (suc (suc (suc (suc (suc (suc (suc zero))))))) h = refl
size-hex_digit (suc (suc (suc (suc (suc (suc (suc (suc zero)))))))) h = refl
size-hex_digit (suc (suc (suc (suc (suc (suc (suc (suc (suc zero))))))))) h = refl
size-hex_digit (suc (suc (suc (suc (suc (suc (suc (suc (suc (suc zero)))))))))) h = refl
size-hex_digit (suc (suc (suc (suc (suc (suc (suc (suc (suc (suc (suc zero))))))))))) h = refl
size-hex_digit (suc (suc (suc (suc (suc (suc (suc (suc (suc (suc (suc (suc zero)))))))))))) h = refl
size-hex_digit (suc (suc (suc (suc (suc (suc (suc (suc (suc (suc (suc (suc (suc zero)))))))))))))
      h =
    refl
size-hex_digit
      (suc (suc (suc (suc (suc (suc (suc (suc (suc (suc (suc (suc (suc (suc zero)))))))))))))) h =
    refl
size-hex_digit
      (suc (suc (suc (suc (suc (suc (suc (suc (suc (suc (suc (suc (suc (suc (suc zero)))))))))))))))
      h =
    refl
size-hex_digit
      (suc
        (suc (suc (suc (suc (suc (suc (suc (suc (suc (suc (suc (suc (suc (suc (suc k))))))))))))))))
      h =
    absurd (omega arith)

abbrev pow16 : ℕ → ℕ
pow16 zero = 1
pow16 (suc k) = 16 * pow16 k

read_hex-hex : (k n : ℕ) → n < pow16 k → read_hex 0 (hex k n) ≡ n
unfolding hex
read_hex-hex zero n h = omega arith
read_hex-hex (suc k) n h =
    let shorter = read_hex-hex k (n / 16) (omega arith) in
    rw (read_hex-append, shorter, read_hex_digit (n % 16) (n / 16) (omega arith)) (omega arith)

size-hex : (k n : ℕ) → size (hex k n) ≡ k
unfolding hex
size-hex zero n = refl
size-hex (suc k) n =
    rw (size-append, size-hex k (n / 16), size-hex_digit (n % 16) (omega arith)) (omega arith)

fnv_from-lt : (bytes : List ℕ) (hash : ℕ) → hash < 2 ^ 64 → fnv_from hash bytes < 2 ^ 64
unfolding fnv_from
fnv_from-lt [] hash h = h
fnv_from-lt (byte ∷ bytes) hash h = fnv_from-lt bytes _ (omega arith)

fnv1a64-lt : (bytes : List ℕ) → fnv1a64 bytes < 2 ^ 64
unfolding fnv1a64
fnv1a64-lt bytes = fnv_from-lt bytes offset_basis (omega arith)

-- The hash of any bytes is below 2 ^ 64, so that the sixteen digits of the identity of an
-- installation are the whole of its hash: the identity is `b3-` and a text of sixteen characters,
-- and they read as the hash of the text that names the two paths, each as the file system resolves
-- it, or as it is given where that fails.
pub installation_scope_id-digits :
    (canonicalize : String → Option String) (app_home env_file : String)
    → let hash = fnv1a64 (
        as_bytes (
          "app_home="
          ⧺ get_or (canonicalize app_home) app_home
          ⧺ "\nenv_file="
          ⧺ get_or (canonicalize env_file) env_file)) in
      ((bytes : List ℕ) → fnv1a64 bytes < 2 ^ 64)
      × ((digits : String) × ((installation_scope_id canonicalize app_home env_file
              ≡ "b3-" ⧺ digits)
            × (size digits ≡ 16)
            × (read_hex 0 digits ≡ hash)))
unfolding installation_scope_id
installation_scope_id-digits canonicalize app_home env_file =
    let hash = fnv1a64 (as_bytes (scope_text canonicalize app_home env_file)) in
    (
      fnv1a64-lt,
      (
        hex 16 hash,
        (
          refl,
          size-hex 16 hash,
          read_hex-hex 16 hash (fnv1a64-lt (as_bytes (scope_text canonicalize app_home env_file))),
        ),
      ),
    )
