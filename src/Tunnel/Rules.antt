-- ===== src/Tunnel/Rules.antt =====
-- The check of the lines of a named tunnel's configuration in
-- crates/platform/src/tunnel/startup.rs.
use brain.Base.{
  ℕ, ◌≡◌, ◌≢◌, refl, ap, String, Option, none, some, List, [], ◌∷◌, ◌++◌, All, ◌⊎◌, inl, inr,
  Bool-cases, Option-cases, nat_eq, nat_eq→eq, arith,
}
use brain.Base.Optional.{and_then}
use brain.Base.Parse.{parse, last_part, first_part}
use brain.Base.Result.{Result, ok, err, to_option}
use brain.Base.Text.{◌⧺◌, strip_prefix, strip_prefix-append, strip_prefix_sound}
use brain.Base.Whitespace.{trim}
use brain.Tunnel.{TunnelError, port_mismatch, service_url, port_of_url, check_lines}

-- A line routes to a port: without the white space around it, it is `service:` and an address that is
-- not a fixed status, and what stands behind the last colon of the address, up to the next slash, is
-- the decimal text of the port.
abbrev pub RoutesTo : String → ℕ → Type 0
RoutesTo line port =
    (rest : String) × (trim line ≡ "service:" ⧺ rest)
    × ((status : String) → trim rest ≢ "http_status:" ⧺ status)
    × (parse 65536 (first_part b'/' (last_part b':' (trim rest))) ≡ ok port)

abbrev pub RoutesNowhere : String → Type 0
RoutesNowhere line = (port : ℕ) → ¬ RoutesTo line port

-- What the loop reads of a line.
abbrev port_of : String → Option ℕ
port_of line = and_then (service_url line) port_of_url

to_option-some : {E A : Type 0} (r : Result E A) (a : A) → to_option r ≡ some a → r ≡ ok a
to_option-some (ok x) a h = cc
to_option-some (err e) a h = cc

port_of-RoutesTo : (line : String) (port : ℕ) → port_of line ≡ some port → RoutesTo line port
unfolding service_url port_of_url
port_of-RoutesTo line port h = elim (Option-cases (strip_prefix "service:" (trim line))) [
  | inl missed ↦ absurd (ground (arith, h, missed))
  | inr (rest, found) ↦ elim (Option-cases (strip_prefix "http_status:" (trim rest))) [
    | inr (status, fixed) ↦ absurd (ground (arith, h, found, fixed))
    | inl free ↦
        let service : service_url line ≡ some (trim rest) = rw (service_url, found, free) refl in
        let port_is : port_of_url (trim rest) ≡ some port = rw service at h in
        (
          rest,
          strip_prefix_sound "service:" (trim line) found,
          λ status same. cc (
            strip_prefix-append "http_status:" status,
            ap (strip_prefix "http_status:") same,
            free,
          ),
          to_option-some (parse 65536 (first_part b'/' (last_part b':' (trim rest)))) port port_is,
        )
  ]
]

RoutesTo-port_of : (line : String) (port : ℕ) → RoutesTo line port → port_of line ≡ some port
unfolding service_url port_of_url
RoutesTo-port_of line port (rest, is_service, not_status, reads) =
    elim (Option-cases (strip_prefix "http_status:" (trim rest))) [
      | inr (status, fixed) ↦
          absurd (not_status status (strip_prefix_sound "http_status:" (trim rest) fixed))
      | inl free ↦
          let service : service_url line ≡ some (trim rest) =
            rw (service_url, is_service, strip_prefix-append "service:" rest, free) refl in
          let port_is : port_of_url (trim rest) ≡ some port = rw (port_of_url, reads) refl in
          rw (service, port_is) refl
    ]

none-RoutesNowhere : (line : String) → port_of line ≡ none → RoutesNowhere line
none-RoutesNowhere line absent port routes = cc (RoutesTo-port_of line port routes, absent)

-- The verdict on the lines of a file: the first line that routes to a port decides.
abbrev pub IsDecided : ℕ → List String → Type 0 → (ℕ → Type 0) → Type 0
IsDecided expected text admitted refused =
    (All RoutesNowhere text × admitted)
    ⊎ ((before : List String) × ((line : String) × ((after : List String) × ((port : ℕ) × ((text
                  ≡ before ++ line ∷ after)
                × All RoutesNowhere before
                × RoutesTo line port
                × (((port ≡ expected) × admitted) ⊎ ((port ≢ expected) × refused port)))))))

module _ (expected : ℕ) (config_file : String) where
  abbrev pub Verdict : Result TunnelError Unit → List String → Type 0
  Verdict r text =
      IsDecided expected text (r ≡ ok tt)
        (λ port. r ≡ err (port_mismatch port expected config_file))

  Verdict-skip :
      (line : String) (text : List String) (r : Result TunnelError Unit)
      → RoutesNowhere line
      → Verdict r text
      → Verdict r (line ∷ text)
  Verdict-skip line text r nowhere (inl (all, admitted)) = inl ((nowhere, all), admitted)
  Verdict-skip line text r nowhere
        (inr (before, (l, (after, (port, (split, skipped, routes, way)))))) =
      inr (line ∷ before, (l, (after, (port, (rw split refl, (nowhere, skipped), routes, way)))))

  pub check_lines-Verdict :
      (text : List String) → Verdict (check_lines expected config_file text) text
  unfolding check_lines
  check_lines-Verdict [] = inl (tt, refl)
  check_lines-Verdict (line ∷ text) = elim (Option-cases (port_of line)) [
    | inl absent ↦
        rw (check_lines, absent)
          (Verdict-skip line text _ (none-RoutesNowhere line absent) (check_lines-Verdict text))
    | inr (port, there) ↦ elim (Bool-cases (nat_eq port expected)) [
      | inl same ↦ inr (
        [],
        (
          line,
          (
            text,
            (
              port,
              (
                refl,
                tt,
                port_of-RoutesTo line port there,
                inl (nat_eq→eq port expected same, rw (check_lines, there, same) refl),
              ),
            ),
          ),
        ),
      )
      | inr differ ↦ inr (
        [],
        (
          line,
          (
            text,
            (
              port,
              (
                refl,
                tt,
                port_of-RoutesTo line port there,
                inr (λ e. ground (arith, e, differ), rw (check_lines, there, differ) refl),
              ),
            ),
          ),
        ),
      )
    ]
  ]
