-- ===== src/Tokens/Samples.antt =====
-- Test data of the store: texts for URLs and scopes, times in unary, and JSON that has no extensions
-- or a public one without a value.
use brain.Base.{
  ◌≡◌, refl, ap, String, none, some, List, [], ◌∷◌, ◌==◌, if◌then◌else◌, false, inl, inr,
  Option-cases, arith,
}
use brain.Base.Text.{◌⧺◌, text_eq_sound}
use brain.Base.Result.{Result, ok, err}
use brain.Tokens.Grant.{Grant, Formats, StoredExtension, public}
use brain.Tokens.Grant.Laws.{IsFaithful}
use brain.Tokens.Store.{SqliteTokenStore}
use brain.Tokens.Issuer.{Call}
use brain.Tokens.Recovery.{no_faults}
use brain.Tokens.Unary.{unary, from_unary, from_unary-unary, tagged, untagged}

abbrev public_only : String → StoredExtension
public_only name = record { identifier = name; visibility = "public"; value = none }

abbrev one_to_string : StoredExtension → Result String String
one_to_string extension = elim extension.value [
  | some value ↦ err "a value"
  | none ↦
      if extension.visibility == "public" then ok (tagged extension.identifier) else err "private"
]

-- An empty text, and `p<name>`.
abbrev json_to_string : List StoredExtension → Result String String
json_to_string [] = ok ""
json_to_string (extension ∷ []) = one_to_string extension
json_to_string _ = err "too long"

abbrev json_from_str : String → Result String (List StoredExtension)
json_from_str text = elim (untagged text) [ none ↦ ok [] | some name ↦ ok (public_only name ∷ []) ]

abbrev pub formats : Formats String String
formats = record {
  url_to_string = λ url. url;
  url_parse = λ text. ok text;
  scope_to_string = λ scope. scope;
  scope_parse = λ text. ok text;
  to_rfc3339 = unary;
  time_parse = λ text. ok (from_unary text);
  strftime = λ text. some (from_unary text);
  json_to_string = json_to_string;
  json_from_str = json_from_str;
}

json-round :
    (stored : List StoredExtension) (text : String)
    → json_to_string stored ≡ ok text
    → json_from_str text ≡ ok stored
json-round [] text h = let e : text ≡ "" = ground arith in rw e refl
json-round (extension ∷ []) text h = elim (Option-cases extension.value) [
  | inl plain ↦
      let e : text ≡ tagged extension.identifier = ground arith in
      let v : extension.visibility ≡ "public" =
        ground (arith, text_eq_sound extension.visibility "public") in
      rw e (ground (arith, v, plain))
  | inr (v, valued) ↦ absurd (ground arith)
]
json-round (e ∷ f ∷ rest) text h = absurd (ground arith)

pub formats-IsFaithful : IsFaithful formats
formats-IsFaithful = record {
  url = λ u. refl;
  scope = λ s. refl;
  time = λ t. ap ok (from_unary-unary t);
  json = json-round;
}

-- A grant with one extension, a call at the time 5 that draws a tag for each counter, and an empty
-- file.
abbrev pub grant : Grant String String
grant = record {
  owner_id = "owner";
  client_id = "client";
  redirect_uri = "https://client.example/callback";
  scope = "mcp";
  until = 0;
  extensions = ("pkce", public none) ∷ [];
}

abbrev pub call : Call String String
call = record {
  now_access = 5;
  now_refresh = 5;
  tag = λ usage grant. some ("tag" ⧺ unary usage);
  faults = no_faults;
}

abbrev pub store : SqliteTokenStore
store = record {
  schema_ready = false;
  lifetimes = record { access_secs = 0; refresh_secs = 0 };
  usage = 0;
  database = record { access_tokens = false; oauth_tokens = none };
}
