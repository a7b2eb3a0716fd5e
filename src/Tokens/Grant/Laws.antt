-- ===== src/Tokens/Grant/Laws.antt =====
-- The extensions of a grant on their way through the database.
use brain.Base.{
  ◌≡◌, refl, sym, ap, ℕ, String, Option, none, Bool, true, false, not, List, [], ◌∷◌, ◌++◌, ◌==◌,
  ◌||◌, arith, eq_refl, any, keep, find, filter_map,
}
use mathlib.Core.Path.{subst}
use mathlib.Core.List.{append_assoc, append-nil}
use brain.Base.Optional
use brain.Base.Text.{text_eq_sound}
use brain.Base.Result.{ok}
use brain.Tokens.Grant.{
  Value, public, private, Extensions, StoredExtension, Formats, stored_public, stored_private,
  set_raw, restored_value, restore_extensions, serialize_extensions, deserialize_extensions,
}

abbrev Entry : Type 0
Entry = String × Value

abbrev pub has_key : String → Entry → Bool
has_key key entry = entry.0 == key

-- The keys of a map are distinct.
unfoldable pub IsMap : Extensions → Type 0
IsMap [] = Unit
IsMap (entry ∷ rest) = (any (has_key entry.0) rest ≡ false) × IsMap rest

abbrev is_public : Entry → Bool
is_public (key, public v) = true
is_public (key, private v) = false

-- The extensions in the order in which they are stored.
unfoldable pub restored : Extensions → Extensions
restored extensions = keep is_public extensions ++ keep (λ e. not (is_public e)) extensions

abbrev pub get : String → Extensions → Option Entry
get key = find (has_key key)

any-append : (p : Entry → Bool) (xs ys : Extensions) → any p (xs ++ ys) ≡ (any p xs || any p ys)
any-append p [] ys = refl
any-append p (x ∷ xs) ys = ground (arith, any-append p xs ys)

any-keep : (p q : Entry → Bool) (xs : Extensions) → any p xs ≡ false → any p (keep q xs) ≡ false
any-keep p q [] h = refl
any-keep p q (x ∷ xs) h = ground (arith, any-keep p q xs)

IsMap-insert :
    (entry : Entry) (xs ys : Extensions)
    → any (has_key entry.0) xs ≡ false
    → any (has_key entry.0) ys ≡ false
    → IsMap (xs ++ ys)
    → IsMap (xs ++ entry ∷ ys)
unfolding IsMap
IsMap-insert entry [] ys h k m = (k, m)
IsMap-insert entry (x ∷ xs) ys h k m = (
  ground (
    arith,
    m.0,
    any-append (has_key x.0) xs ys,
    any-append (has_key x.0) xs (entry ∷ ys),
    text_eq_sound entry.0 x.0,
    text_eq_sound x.0 entry.0,
  ),
  IsMap-insert entry xs ys (ground arith) k m.1,
)

restored-IsMap : (extensions : Extensions) → IsMap extensions → IsMap (restored extensions)
unfolding IsMap restored
restored-IsMap [] m = tt
restored-IsMap ((key, public v) ∷ rest) m = (
  ground (
    arith,
    m.0,
    any-append (has_key key) (keep is_public rest) (keep (λ e. not (is_public e)) rest),
    any-keep (has_key key) is_public rest,
    any-keep (has_key key) (λ e. not (is_public e)) rest,
  ),
  restored-IsMap rest m.1,
)
restored-IsMap ((key, private v) ∷ rest) m =
    IsMap-insert (key, private v) (keep is_public rest) (keep (λ e. not (is_public e)) rest)
      (any-keep (has_key key) is_public rest m.0)
      (any-keep (has_key key) (λ e. not (is_public e)) rest m.0) (restored-IsMap rest m.1)

abbrev stored : Entry → StoredExtension
stored (key, public v) = record { identifier = key; visibility = "public"; value = v }
stored (key, private v) = record { identifier = key; visibility = "private"; value = v }

abbrev stored_all : Extensions → List StoredExtension
stored_all [] = []
stored_all (e ∷ rest) = stored e ∷ stored_all rest

set_raw-new :
    (entry : Entry) (xs : Extensions)
    → any (has_key entry.0) xs ≡ false
    → set_raw entry.0 entry.1 xs ≡ xs ++ entry ∷ []
unfolding set_raw
set_raw-new entry [] h = refl
set_raw-new entry (x ∷ xs) h = ground (arith, set_raw-new entry xs)

IsMap-front :
    (entry : Entry) (xs ys : Extensions)
    → IsMap (xs ++ entry ∷ ys)
    → any (has_key entry.0) xs ≡ false
unfolding IsMap
IsMap-front entry [] ys m = refl
IsMap-front entry (x ∷ xs) ys m = ground (
  arith,
  m.0,
  any-append (has_key x.0) xs (entry ∷ ys),
  IsMap-front entry xs ys m.1,
  text_eq_sound x.0 entry.0,
  eq_refl entry.0,
)

-- The entries `ys` join the entries `xs` that the loop has restored.
restore-stored :
    (xs ys : Extensions) → IsMap (xs ++ ys) → restore_extensions xs (stored_all ys) ≡ ok (xs ++ ys)
unfolding restore_extensions restored_value
restore-stored xs [] m = ap ok (sym (append-nil xs))
restore-stored xs ((key, public v) ∷ ys) m =
    let entry : Entry = (key, public v) in
    rw (set_raw-new entry xs (IsMap-front entry xs ys m), sym (append_assoc xs (entry ∷ []) ys))
      (restore-stored (xs ++ entry ∷ []) ys (subst IsMap (sym (append_assoc xs (entry ∷ []) ys)) m))
restore-stored xs ((key, private v) ∷ ys) m =
    let entry : Entry = (key, private v) in
    rw (set_raw-new entry xs (IsMap-front entry xs ys m), sym (append_assoc xs (entry ∷ []) ys))
      (restore-stored (xs ++ entry ∷ []) ys (subst IsMap (sym (append_assoc xs (entry ∷ []) ys)) m))

stored_all-append : (xs ys : Extensions) → stored_all (xs ++ ys) ≡ stored_all xs ++ stored_all ys
stored_all-append [] ys = refl
stored_all-append (x ∷ xs) ys = ap (λ rest. stored x ∷ rest) (stored_all-append xs ys)

filter_map-public : (xs : Extensions) → filter_map stored_public xs ≡ stored_all (keep is_public xs)
filter_map-public [] = refl
filter_map-public ((key, public v) ∷ xs) =
    ap (λ rest. stored (key, public v) ∷ rest) (filter_map-public xs)
filter_map-public ((key, private v) ∷ xs) = filter_map-public xs

filter_map-private :
    (xs : Extensions) → filter_map stored_private xs ≡ stored_all (keep (λ e. not (is_public e)) xs)
filter_map-private [] = refl
filter_map-private ((key, public v) ∷ xs) = filter_map-private xs
filter_map-private ((key, private v) ∷ xs) =
    ap (λ rest. stored (key, private v) ∷ rest) (filter_map-private xs)

-- Texts that are written are read back: what the other crates document.
pub record IsFaithful {Url Scope : Type 0} (formats : Formats Url Scope) : Type 0 where
  pub url : (u : Url) → formats.url_parse (formats.url_to_string u) ≡ ok u
  pub scope : (s : Scope) → formats.scope_parse (formats.scope_to_string s) ≡ ok s
  pub time : (t : ℕ) → formats.time_parse (formats.to_rfc3339 t) ≡ ok t
  pub json :
      (stored : List StoredExtension) (text : String)
      → formats.json_to_string stored ≡ ok text
      → formats.json_from_str text ≡ ok stored

-- The extensions of a grant that are written to the database are read back, the public entries first:
-- for a map of extensions, under a format that reads back what it writes.
pub deserialize-serialize :
    {Url Scope : Type 0} (formats : Formats Url Scope)
    → IsFaithful formats
    → (extensions : Extensions) (payload : String) → IsMap extensions
    → serialize_extensions formats extensions ≡ ok payload
    → deserialize_extensions formats payload ≡ ok (restored extensions)
unfolding serialize_extensions deserialize_extensions restored
deserialize-serialize formats faithful extensions payload m h =
    let stored_list : List StoredExtension =
      filter_map stored_public extensions ++ filter_map stored_private extensions in
    let same : stored_list ≡ stored_all (restored extensions) =
      rw
        (
          filter_map-public extensions,
          filter_map-private extensions,
          stored_all-append (keep is_public extensions) (keep (λ e. not (is_public e)) extensions),
        )
        refl in
    ground (
      arith,
      faithful.json stored_list payload,
      same,
      restore-stored [] (restored extensions) (restored-IsMap extensions m),
    )

get-append :
    (key : String) (xs ys : Extensions)
    → get key (xs ++ ys) ≡ Optional.or_else (get key xs) (get key ys)
get-append key [] ys = refl
get-append key (x ∷ xs) ys = ground (arith, get-append key xs ys)

get-none : (key : String) (xs : Extensions) → any (has_key key) xs ≡ false → get key xs ≡ none
get-none key [] h = refl
get-none key (x ∷ xs) h = ground (arith, get-none key xs)

-- The order of the entries is all that changes: every lookup has the same answer.
pub get-restored :
    (key : String) (extensions : Extensions)
    → IsMap extensions
    → get key (restored extensions) ≡ get key extensions
unfolding restored IsMap
get-restored key [] m = refl
get-restored key ((k, public v) ∷ rest) m = ground (arith, get-restored key rest m.1)
get-restored key ((k, private v) ∷ rest) m =
    let ks = keep is_public rest in
    let ps = keep (λ e. not (is_public e)) rest in
    ground (
      arith,
      text_eq_sound k key,
      get-append key ks ((k, private v) ∷ ps),
      get-append key ks ps,
      get-restored key rest m.1,
      get-none key ks,
      any-keep (has_key key) is_public rest,
      m.0,
    )
