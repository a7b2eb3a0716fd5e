-- ===== src/Plugin/Uri/Laws.antt =====
-- Resource URIs: their parts, and the lemmas on the prefixing and the stripping.
use Prim.Native.Char.{Char, code}
use text.Mathlib.TextLemmas.{nil-append, cons-append, append_assoc, append-nil}
use brain.Base.{
  ℕ, suc, ◌≤◌, ◌≡◌, refl, ◌∙◌, String, none, some, Bool, true, false, not, ◌&&◌, inl, inr, arith,
  Bool-cases, Option-cases,
}
use brain.Base.Optional
use brain.Base.Optional.{and_then}
use brain.Base.Text.{
  ◌⧺◌, strip_prefix, strip_prefix-append, split_once, split_once-append, break, break-append,
  is_empty,
}
use brain.Plugin.Uri.{ends_authority, split_uri_authority}

-- No character of the text satisfies the test.
abbrev pub free : (ℕ → Bool) → String → Bool
free stop String.[] = true
free stop (String.◌∷◌ c s) = not (stop (code c)) && free stop s

abbrev size : String → ℕ
size String.[] = 0
size (String.◌∷◌ c s) = suc (size s)

size-append : (s t : String) → size s ≤ size (s ⧺ t)
size-append String.[] t = omega arith
size-append (String.◌∷◌ c s) t = rw cons-append (omega (arith, size-append s t))

break-free : (stop : ℕ → Bool) (s : String) → free stop (break stop s).0 ≡ true
unfolding break
break-free stop String.[] = refl
break-free stop (String.◌∷◌ c s) = elim (Bool-cases (stop (code c))) [
  | inl stopped ↦ rw stopped
  | inr more ↦ rw (more, more) (break-free stop s)
]

-- What is put in front of a text, free of the stopping characters, joins its first part.
break-append_free :
    (stop : ℕ → Bool) (x y : String)
    → free stop x ≡ true
    → break stop (x ⧺ y) ≡ (x ⧺ (break stop y).0, (break stop y).1)
unfolding break
break-append_free stop String.[] y h = rw (nil-append, nil-append)
break-append_free stop (String.◌∷◌ c x) y h =
    let clear : stop (code c) ≡ false = ground arith in
    let later : free stop x ≡ true = ground arith in
    rw (cons-append, clear, break-append_free stop x y later, cons-append)

-- Whether a prefix is there depends on as many characters as it has.
strip_prefix-other_rest :
    (p u b b' : String)
    → size p ≤ size u
    → strip_prefix p (u ⧺ b) ≡ none
    → strip_prefix p (u ⧺ b') ≡ none
unfolding strip_prefix
strip_prefix-other_rest String.[] u b b' l h = ground arith
strip_prefix-other_rest (String.◌∷◌ c p) String.[] b b' l h = absurd (omega arith)
strip_prefix-other_rest (String.◌∷◌ c p) (String.◌∷◌ d u) b b' l h = rw cons-append (
    let h' : strip_prefix (String.◌∷◌ c p) (String.◌∷◌ d (u ⧺ b)) ≡ none = rw cons-append at h in
    ground (arith, strip_prefix-other_rest p u b b'))

size-le-append_right : (s t : String) → size t ≤ size (s ⧺ t)
size-le-append_right String.[] t = rw nil-append (omega arith)
size-le-append_right (String.◌∷◌ c s) t = rw cons-append (omega (arith, size-le-append_right s t))

split_once_at_start :
    (p t : String) {r : String} → strip_prefix p t ≡ some r → split_once p t ≡ some ("", r)
unfolding split_once
split_once_at_start p String.[] h = rw h
split_once_at_start p (String.◌∷◌ c t) h = rw (h, split_once)

split_once_later :
    (p : String) (c : Char) (t : String)
    → strip_prefix p (String.◌∷◌ c t) ≡ none
    → split_once p (String.◌∷◌ c t)
      ≡ Optional.map (λ (parts : String × String). (String.◌∷◌ c parts.0, parts.1)) (split_once p t)
unfolding split_once
split_once_later p c t h = rw (h, split_once)

-- A first character at which no occurrence begins, before a text that is split.
miss-other_rest :
    (p : String) (c : Char) (a b b' : String)
    → strip_prefix p (String.◌∷◌ c (a ⧺ p ⧺ b)) ≡ none
    → strip_prefix p (String.◌∷◌ c (a ⧺ p ⧺ b')) ≡ none
miss-other_rest p c a b b' h =
    rw (← append_assoc a p b', ← cons-append c (a ⧺ p) b')
      (strip_prefix-other_rest p (String.◌∷◌ c (a ⧺ p)) b b'
        (omega (arith, size-le-append_right a p))
        (rw (← append_assoc a p b, ← cons-append c (a ⧺ p) b) at h))

-- The first occurrence stays the first, whatever follows it.
split_once-other_rest :
    (p s : String) {a b : String} (b' : String)
    → split_once p s ≡ some (a, b)
    → split_once p (a ⧺ p ⧺ b') ≡ some (a, b')
unfolding split_once
split_once-other_rest p String.[] {a} b' h = elim (Option-cases (strip_prefix p "")) [
  | inl missed ↦ ground arith
  | inr (rest, found) ↦
      let e : a ≡ "" = ground arith in
      rw (e, nil-append) (split_once_at_start p (p ⧺ b') (strip_prefix-append p b'))
]
split_once-other_rest p (String.◌∷◌ c s) {a} {b} b' h =
    elim (Option-cases (strip_prefix p (String.◌∷◌ c s))) [
      | inr (rest, found) ↦
          let e : a ≡ "" = ground arith in
          rw (e, nil-append) (split_once_at_start p (p ⧺ b') (strip_prefix-append p b'))
      | inl missed ↦ elim (Option-cases (split_once p s)) [
        | inl none_left ↦ ground arith
        | inr (parts, found) ↦
            let e : a ≡ String.◌∷◌ c parts.0 = ground arith in
            let whole = split_once-append p s found in
            let miss = miss-other_rest p c parts.0 parts.1 b' (rw whole missed) in
            rw (e, cons-append, split_once_later p c _ miss, split_once-other_rest p s b' found)
      ]
    ]

break-break : (stop : ℕ → Bool) (s : String) → break stop (break stop s).1 ≡ ("", (break stop s).1)
unfolding break
break-break stop String.[] = refl
break-break stop (String.◌∷◌ c s) = elim (Bool-cases (stop (code c))) [
  | inl stopped ↦ rw (stopped, stopped)
  | inr more ↦ rw more (break-break stop s)
]

pub free-append :
    (stop : ℕ → Bool) (s t : String)
    → free stop s ≡ true
    → free stop t ≡ true
    → free stop (s ⧺ t) ≡ true
free-append stop String.[] t h k = rw nil-append k
free-append stop (String.◌∷◌ c s) t h k = rw cons-append (ground (arith, free-append stop s t))

pub free-append_right :
    (stop : ℕ → Bool) (s t : String) → free stop (s ⧺ t) ≡ true → free stop t ≡ true
free-append_right stop String.[] t h = rw nil-append at h
free-append_right stop (String.◌∷◌ c s) t h =
    let h' : free stop (String.◌∷◌ c (s ⧺ t)) ≡ true = rw cons-append at h in
    free-append_right stop s t (ground arith)

pub is_empty-append : (s t : String) → is_empty t ≡ false → is_empty (s ⧺ t) ≡ false
is_empty-append String.[] t h = rw nil-append h
is_empty-append (String.◌∷◌ c s) t h = rw cons-append

-- What a successful split says of its parts.
record IsSplit (uri pre authority suffix : String) : Type 0 where
  scheme : String
  rest : String
  found : split_once "://" uri ≡ some (scheme, rest)
  pre_is : pre ≡ scheme ⧺ "://"
  authority_is : authority ≡ (break ends_authority rest).0
  suffix_is : suffix ≡ (break ends_authority rest).1
  nonempty : is_empty authority ≡ false

split_uri_authority-IsSplit :
    (uri : String) {pre authority suffix : String}
    → split_uri_authority uri ≡ some (pre, authority, suffix)
    → IsSplit uri pre authority suffix
unfolding split_uri_authority
split_uri_authority-IsSplit uri h = elim (Option-cases (split_once "://" uri)) [
  | inl missed ↦ absurd (ground arith)
  | inr ((scheme, rest), found) ↦ record {
    scheme = scheme;
    rest = rest;
    found = found;
    pre_is = ground arith;
    authority_is = ground arith;
    suffix_is = ground arith;
    nonempty = ground arith;
  }
]

module _ (uri : String) {pre authority suffix : String} where
  pub split-whole :
      split_uri_authority uri ≡ some (pre, authority, suffix) → pre ⧺ authority ⧺ suffix ≡ uri
  split-whole h =
      let s = split_uri_authority-IsSplit uri h in
      rw (s.pre_is, s.authority_is, s.suffix_is, append_assoc, break-append ends_authority s.rest)
        (split_once-append "://" uri s.found)

  pub split-free :
      split_uri_authority uri ≡ some (pre, authority, suffix) → free ends_authority authority ≡ true
  split-free h =
      let s = split_uri_authority-IsSplit uri h in
      rw s.authority_is (break-free ends_authority s.rest)

  pub split-nonempty :
      split_uri_authority uri ≡ some (pre, authority, suffix) → is_empty authority ≡ false
  split-nonempty h = (split_uri_authority-IsSplit uri h).nonempty

  -- Another authority in the place of the one that was split off.
  pub split-replace :
      (new : String)
      → split_uri_authority uri ≡ some (pre, authority, suffix)
      → free ends_authority new ≡ true
      → is_empty new ≡ false
      → split_uri_authority (pre ⧺ new ⧺ suffix) ≡ some (pre, new, suffix)
  unfolding split_uri_authority
  split-replace new h clear full =
      let s = split_uri_authority-IsSplit uri h in
      let found : split_once "://" (pre ⧺ new ⧺ suffix) ≡ some (s.scheme, new ⧺ suffix) =
        rw (s.pre_is, append_assoc) (split_once-other_rest "://" uri (new ⧺ suffix) s.found) in
      rw (found, broken s, full, ← s.pre_is)
    where
      broken :
          IsSplit uri pre authority suffix → break ends_authority (new ⧺ suffix) ≡ (new, suffix)
      broken s =
          let at_end : break ends_authority suffix ≡ ("", suffix) =
            rw s.suffix_is (break-break ends_authority s.rest) in
          break-append_free ends_authority new suffix clear ∙ rw (at_end, append-nil)
