-- ===== src/Tokens/Grant.antt =====
-- Grants, token rows and the texts under which the database holds them. The types of the oxide_auth
-- crate are modelled by what the store reads of them; `Url` and `Scope` are any types.
pub mod Laws
use brain.Base.{
  ℕ, ◌≡◌, String, Option, none, some, Bool, true, false, List, [], ◌∷◌, ◌++◌, ◌==◌, filter_map, map,
  if◌then◌else◌,
}
use brain.Base.Result
use brain.Base.Result.{Result, ok, err, ◌>>=◌}
use brain.Base.Text.{◌⧺◌}

pub data TokenStoreError : Type 0 where
  unavailable : String → TokenStoreError

pub data TokenKind : Type 0 where
  access refresh : TokenKind

unfoldable pub token_kind_to_str : TokenKind → String
token_kind_to_str access = "access"
token_kind_to_str refresh = "refresh"

unfoldable pub token_kind_from_str : String → Result TokenStoreError TokenKind
token_kind_from_str value =
    if value == "access"
    then ok access
    else if value == "refresh"
    then ok refresh
    else err (unavailable ("unknown token kind '" ⧺ value ⧺ "' in sqlite issuer"))

abbrev pub kind_eq : TokenKind → TokenKind → Bool
kind_eq access access = true
kind_eq refresh refresh = true
kind_eq _ _ = false

-- `oxide_auth::primitives::grant::Value`, and `Extensions` as the entries of its map.
pub data Value : Type 0 where
  public private : Option String → Value

abbrev pub Extensions : Type 0
Extensions = List (String × Value)

-- `Grant`; the time is in nanoseconds since the epoch.
pub record Grant (Url Scope : Type 0) : Type 0 where
  pub owner_id : String
  pub client_id : String
  pub redirect_uri : Url
  pub scope : Scope
  pub until : ℕ
  pub extensions : Extensions

pub record TokenRow (Url Scope : Type 0) : Type 0 where
  pub pair_id : String
  pub kind : TokenKind
  pub grant : Grant Url Scope

pub record StoredExtension : Type 0 where
  pub identifier : String
  pub visibility : String
  pub value : Option String

-- What other crates do: the texts of URLs, scopes and RFC 3339 times, and the JSON of extensions;
-- `strftime` is SQLite's `strftime('%s', …)`, `none` for NULL. An error is its message.
pub record Formats (Url Scope : Type 0) : Type 0 where
  pub url_to_string : Url → String
  pub url_parse : String → Result String Url
  pub scope_to_string : Scope → String
  pub scope_parse : String → Result String Scope
  pub to_rfc3339 : ℕ → String
  pub time_parse : String → Result String ℕ
  pub strftime : String → Option ℕ
  pub json_to_string : List StoredExtension → Result String String
  pub json_from_str : String → Result String (List StoredExtension)

-- `extensions.public()` and `extensions.private()`, as they are stored.
abbrev stored_public : String × Value → Option StoredExtension
stored_public (identifier, public value) =
    some (record { identifier = identifier; visibility = "public"; value = value })
stored_public (identifier, private value) = none

abbrev stored_private : String × Value → Option StoredExtension
stored_private (identifier, private value) =
    some (record { identifier = identifier; visibility = "private"; value = value })
stored_private (identifier, public value) = none

-- `set_raw`: the value of an identifier is replaced, or added.
unfoldable pub set_raw : String → Value → Extensions → Extensions
set_raw identifier value [] = (identifier, value) ∷ []
set_raw identifier value ((i, v) ∷ rest) =
    if i == identifier then (identifier, value) ∷ rest else (i, v) ∷ set_raw identifier value rest

unfoldable pub restored_value : StoredExtension → Result TokenStoreError Value
restored_value extension =
    if extension.visibility == "public"
    then ok (public extension.value)
    else if extension.visibility == "private"
    then ok (private extension.value)
    else err (unavailable ("unknown extension visibility '" ⧺ extension.visibility ⧺ "'"))

-- The loop of `deserialize_extensions`.
unfoldable pub restore_extensions :
    Extensions → List StoredExtension → Result TokenStoreError Extensions
unfolding restored_value set_raw
restore_extensions extensions [] = ok extensions
restore_extensions extensions (extension ∷ stored) = elim (restored_value extension) [
  | err e ↦ err e
  | ok value ↦ restore_extensions (set_raw extension.identifier value extensions) stored
]

module _ {Url Scope : Type 0} (formats : Formats Url Scope) where
  unfoldable pub serialize_extensions : Extensions → Result TokenStoreError String
  serialize_extensions extensions = Result.map_err unavailable (
      formats.json_to_string
        (filter_map stored_public extensions ++ filter_map stored_private extensions))

  unfoldable pub deserialize_extensions : String → Result TokenStoreError Extensions
  unfolding restore_extensions
  deserialize_extensions payload = do
    stored ← Result.map_err unavailable (formats.json_from_str payload)
    restore_extensions [] stored
