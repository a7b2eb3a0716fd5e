-- ===== src/Http/OAuth/Token/Normalized.antt =====
-- What an answer of the token endpoint without caches and with another error is.
use brain.Base.{
  ◌≡◌, ◌≢◌, String, some, Bool, true, List, [], ◌∷◌, ◌==◌, arith, inl, inr, keep, eq_iff,
}
use brain.Base.Optional.{and_then}
use brain.Domain.{Headers}
use brain.Http.OAuth.Refusal.{insert_header, add_oauth_token_cache_headers}
use brain.Http.OAuth.Token.{is_text, set_error}
use brain.Http.Responses.{Response}
use brain.Json.Laws.{lookup-insert, object-cases}
use brain.Json.{Value, string, get, as_str}

-- The values of a header.
abbrev pub values : String → Headers → List (String × String)
values name headers = keep (λ (h : String × String). h.0 == name) headers

-- The response forbids caches to keep it: each of the two headers stands in it once.
abbrev pub IsUncached : {B : Type 0} → Response B → Type 0
IsUncached response =
    (values "cache-control" response.headers ≡ ("cache-control", "no-store") ∷ [])
    × (values "pragma" response.headers ≡ ("pragma", "no-cache") ∷ [])

values-insert :
    (name value : String) (headers : Headers)
    → values name (insert_header name value headers) ≡ (name, value) ∷ []
values-insert name value [] = ground (arith, eq_iff name name)
values-insert name value (h ∷ headers) =
    ground (arith, values-insert name value headers, eq_iff h.0 name, eq_iff name name)

values-insert_other :
    (other name value : String) (headers : Headers)
    → other ≢ name
    → values other (insert_header name value headers) ≡ values other headers
values-insert_other other name value [] different = ground (arith, eq_iff name other)
values-insert_other other name value (h ∷ headers) different = ground (
  arith,
  values-insert_other other name value headers different,
  eq_iff h.0 name,
  eq_iff h.0 other,
  eq_iff name other,
)

pub cache_headers-IsUncached :
    {B : Type 0} (response : Response B) → IsUncached (add_oauth_token_cache_headers response)
unfolding add_oauth_token_cache_headers
cache_headers-IsUncached response = (
  rw
      (values-insert_other "cache-control" "pragma" "no-cache"
        (insert_header "cache-control" "no-store" response.headers)
        (λ same. ground (arith, eq_iff "cache-control" "pragma")))
      (values-insert "cache-control" "no-store" response.headers),
  values-insert "pragma" "no-cache" (insert_header "cache-control" "no-store" response.headers),
)

-- Whether the answer of the flow says `invalid_request`.
abbrev pub is_invalid_request : Value → Bool
is_invalid_request value = is_text "invalid_request" (and_then (get "error" value) as_str)

-- The same answer with another error.
pub record IsInvalidGrant (value changed : Value) : Type 0 where
  pub error : get "error" changed ≡ some (string "invalid_grant")
  pub others : (key : String) → key ≢ "error" → get key changed ≡ get key value

pub set_error-IsInvalidGrant :
    (value : Value) → is_invalid_request value ≡ true → IsInvalidGrant value (set_error value)
set_error-IsInvalidGrant value h = elim (object-cases value) [
  | inl other ↦ absurd (ground arith)
  | inr (fields, same) ↦ rw same (record {
    error = ground (
      arith,
      lookup-insert "error" "error" (string "invalid_grant") fields,
      eq_iff "error" "error",
    );
    others = λ key different. ground (
      arith,
      lookup-insert "error" key (string "invalid_grant") fields,
      eq_iff key "error",
      eq_iff "error" key,
    );
  })
]
