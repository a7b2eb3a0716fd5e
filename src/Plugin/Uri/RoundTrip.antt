-- ===== src/Plugin/Uri/RoundTrip.antt =====
-- The two directions between a container's URIs and those that the gateway shows to its clients.
use text.Mathlib.TextLemmas.{append_assoc}
use brain.Base.{◌≡◌, refl, String, some, true, false, inl, inr, arith, Option-cases}
use brain.Base.Text.{◌⧺◌, strip_prefix, strip_prefix-append, strip_prefix_sound, is_empty}
use brain.Plugin.Uri.{
  ends_authority, split_uri_authority, prefix_resource_uri_for_container, strip_name,
  strip_resource_uri_prefix_for_container,
}
use brain.Plugin.Uri.Laws.{
  free, free-append, free-append_right, is_empty-append, split-whole, split-free, split-replace,
  split-nonempty,
}

pub strip_name-append :
    (name t : String) → is_empty t ≡ false → strip_name name (name ⧺ "__" ⧺ t) ≡ some t
unfolding strip_name
strip_name-append name t full =
    rw (strip_prefix-append name ("__" ⧺ t), strip_prefix-append "__" t, full)

pub strip_name_sound :
    (name text : String) {t : String}
    → strip_name name text ≡ some t
    → (text ≡ name ⧺ "__" ⧺ t) × (is_empty t ≡ false)
unfolding strip_name
strip_name_sound name text {t} h = elim (Option-cases (strip_prefix name text)) [
  | inl missed ↦ absurd (ground arith)
  | inr (rest, found) ↦ elim (Option-cases (strip_prefix "__" rest)) [
    | inl missed ↦ absurd (ground arith)
    | inr (last, found') ↦
        let e : last ≡ t = ground arith in
        (
          rw (strip_prefix_sound name text found, strip_prefix_sound "__" rest found', e),
          ground arith,
        )
  ]
]

module _ (container_name : String) where
  -- Stripping the prefixed form of a URI gives the URI back, if the container's name holds none of
  -- the characters that end an authority.
  pub strip-prefix_uri :
      (uri prefixed : String)
      → free ends_authority container_name ≡ true
      → prefix_resource_uri_for_container container_name uri ≡ some prefixed
      → strip_resource_uri_prefix_for_container container_name prefixed ≡ some uri
  unfolding prefix_resource_uri_for_container strip_resource_uri_prefix_for_container
  strip-prefix_uri uri prefixed clear h = elim (Option-cases (split_uri_authority uri)) [
    | inl missed ↦ absurd (ground arith)
    | inr ((pre, authority, suffix), found) ↦
        let full = split-nonempty uri found in
        let new = container_name ⧺ "__" ⧺ authority in
        let e : prefixed ≡ pre ⧺ new ⧺ suffix = rw (append_assoc, append_assoc) (ground arith) in
        let parted : split_uri_authority (pre ⧺ new ⧺ suffix) ≡ some (pre, new, suffix) =
          split-replace uri new found
            (free-append ends_authority container_name ("__" ⧺ authority) clear
              (free-append ends_authority "__" authority refl (split-free uri found)))
            (is_empty-append container_name ("__" ⧺ authority)
              (is_empty-append "__" authority full)) in
        rw (e, parted, strip_name-append container_name authority full, split-whole uri found)
  ]

  -- A URI that the stripping accepts is the prefixed form of its result.
  pub prefix-strip_uri :
      (uri original : String)
      → strip_resource_uri_prefix_for_container container_name uri ≡ some original
      → prefix_resource_uri_for_container container_name original ≡ some uri
  unfolding prefix_resource_uri_for_container strip_resource_uri_prefix_for_container
  prefix-strip_uri uri original h = elim (Option-cases (split_uri_authority uri)) [
    | inl missed ↦ absurd (ground arith)
    | inr ((pre, authority, suffix), found) ↦
        elim (Option-cases (strip_name container_name authority)) [
          | inl missed ↦ absurd (ground arith)
          | inr (name, stripped) ↦
              let (whole, full) = strip_name_sound container_name authority stripped in
              let e : original ≡ pre ⧺ name ⧺ suffix = ground arith in
              let clear : free ends_authority name ≡ true =
                free-append_right ends_authority "__" name (
                  free-append_right ends_authority container_name ("__" ⧺ name)
                    (rw whole at (split-free uri found))) in
              rw (e, split-replace uri name found clear full)
                (rw (← split-whole uri found, whole, append_assoc, append_assoc))
        ]
  ]
