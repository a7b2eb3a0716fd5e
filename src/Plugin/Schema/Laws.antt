-- ===== src/Plugin/Schema/Laws.antt =====
-- The cached schemas of a container: their names and URIs.
use brain.Base.{
  ◌≡◌, refl, String, Option, none, some, false, List, [], ◌∷◌, ◌==◌, arith, inl, inr, All,
  filter_map, find, Option-cases,
}
use brain.Base.Optional.{and_then, or_else}
use brain.Base.Text.{◌⧺◌}
use brain.Json.{Value, null, string, object, lookup, insert, get, as_str}
use brain.Json.Laws.{lookup-insert, object-cases}
use brain.Plugin.Uri.{prefix_resource_uri_for_container}
use brain.Plugin.Schema.{
  RemoteMcpContainerToolSchema, RemoteMcpContainerResourceSchema, get_tool_resource_uri,
  set_tool_resource_uri, rewrite_tool_resource_uri, prefix_tool_schema, prefix_tool_schemas,
  prefix_resource_schema, prefix_resource_schemas, set_meta_uri,
}

pub All-filter_map :
    {A B : Type 0} (P : B → Type 0) (f : A → Option B) (xs : List A)
    → ((x : A) (y : B) → f x ≡ some y → P y)
    → All P (filter_map f xs)
All-filter_map P f [] h = tt
All-filter_map P f (x ∷ xs) h = elim (Option-cases (f x)) [
  | inl skipped ↦ rw (skipped, All) (All-filter_map P f xs h)
  | inr (y, pushed) ↦ rw (pushed, All) (h x y pushed, All-filter_map P f xs h)
]

-- The value of the URI in a `_meta` value.
abbrev meta_uri : Value → Option Value
meta_uri meta =
    or_else (and_then (get "ui" meta) λ ui. get "resourceUri" ui) (get "ui.resourceUri" meta)

meta_uri-set :
    (meta v : Value) (new : String)
    → meta_uri meta ≡ some v
    → meta_uri (set_meta_uri new meta) ≡ some (string new)
meta_uri-set (object fs) v new h = elim (Option-cases (lookup "ui" fs)) [
  | inl missing ↦ flat missing
  | inr (ui, found) ↦ elim (object-cases ui) [
    | inl plain ↦ ground (arith, found, plain, flat_laws)
    | inr (inner, e) ↦ ground (
      arith,
      found,
      e,
      flat_laws,
      lookup-insert "ui" "ui" (object (insert "resourceUri" (string new) inner)) fs,
      lookup-insert "resourceUri" "resourceUri" (string new) inner,
    )
  ]
]
  where
    flat_laws :
        (lookup "ui.resourceUri" (insert "ui.resourceUri" (string new) fs) ≡ some (string new))
        × (lookup "ui" (insert "ui.resourceUri" (string new) fs) ≡ lookup "ui" fs)
    flat_laws = (
      lookup-insert "ui.resourceUri" "ui.resourceUri" (string new) fs,
      lookup-insert "ui.resourceUri" "ui" (string new) fs,
    )

    flat : lookup "ui" fs ≡ none → meta_uri (set_meta_uri new (object fs)) ≡ some (string new)
    flat missing = ground (arith, flat_laws)
meta_uri-set null v new h = ground arith
meta_uri-set _ v new h = ground arith

-- A URI that was read and then set is the one that is read next.
pub get-set_uri :
    (schema : Value) (old new : String)
    → get_tool_resource_uri schema ≡ some old
    → get_tool_resource_uri (set_tool_resource_uri schema new) ≡ some new
unfolding get_tool_resource_uri set_tool_resource_uri
get-set_uri (object fs) old new h = elim (Option-cases (lookup "_meta" fs)) [
  | inl missing ↦ ground arith
  | inr (meta, found) ↦ elim (Option-cases (meta_uri meta)) [
    | inl missing ↦ ground arith
    | inr (v, at) ↦ ground (
      arith,
      meta_uri-set meta v new at,
      lookup-insert "_meta" "_meta" (set_meta_uri new meta) fs,
    )
  ]
]
get-set_uri null old new h = ground arith
get-set_uri _ old new h = ground arith

-- Setting the URI leaves the other keys of the schema alone.
pub get-set_other :
    (key : String) (schema : Value) (uri : String)
    → ("_meta" == key) ≡ false
    → get key (set_tool_resource_uri schema uri) ≡ get key schema
unfolding set_tool_resource_uri
get-set_other key (object fs) uri other = elim (Option-cases (lookup "_meta" fs)) [
  | inl missing ↦ ground arith
  | inr (meta, found) ↦ ground (arith, lookup-insert "_meta" key (set_meta_uri uri meta) fs)
]
get-set_other key null uri other = refl
get-set_other key _ uri other = refl

module _ (rs : List RemoteMcpContainerResourceSchema) where
  rewrite-name :
      (schema : Value) → get "name" (rewrite_tool_resource_uri schema rs) ≡ get "name" schema
  unfolding rewrite_tool_resource_uri
  rewrite-name schema = elim (Option-cases (get_tool_resource_uri schema)) [
    | inl missing ↦ rw missing
    | inr (uri, at) ↦
        elim (Option-cases
          (find (λ (r : RemoteMcpContainerResourceSchema). r.original_uri == uri) rs)) [
            | inl unknown ↦ rw (at, unknown)
            | inr (r, known) ↦ rw (at, known) (get-set_other "name" schema r.prefixed_uri refl)
          ]
  ]

  -- A tool whose schema names a resource that the container lists is shown with the resource's
  -- prefixed URI; `r` is the first listed resource with the URI that the schema names.
  rewrite-resource_uri :
      (schema : Value) (uri : String) (r : RemoteMcpContainerResourceSchema)
      → get_tool_resource_uri schema ≡ some uri
      → find (λ (r : RemoteMcpContainerResourceSchema). r.original_uri == uri) rs ≡ some r
      → get_tool_resource_uri (rewrite_tool_resource_uri schema rs) ≡ some r.prefixed_uri
  unfolding rewrite_tool_resource_uri
  rewrite-resource_uri schema uri r at known =
      rw (at, known) (get-set_uri schema uri r.prefixed_uri at)

-- A cached tool: its two names, and the name that its schema shows.
pub record IsPrefixedTool (name : String) (t : RemoteMcpContainerToolSchema) : Type 0 where
  pub joined : t.prefixed_name ≡ name ⧺ "__" ⧺ t.original_name
  pub shown : get "name" t.schema ≡ some (string t.prefixed_name)

-- A cached resource: its two URIs, and the URI that its schema shows.
pub record IsPrefixedResource (name : String) (r : RemoteMcpContainerResourceSchema) : Type 0 where
  pub prefixed : prefix_resource_uri_for_container name r.original_uri ≡ some r.prefixed_uri
  pub shown : get "uri" r.schema ≡ some (string r.prefixed_uri)

prefix_tool_schema-IsPrefixedTool :
    (name : String) (rs : List RemoteMcpContainerResourceSchema) (tool : Value)
    (t : RemoteMcpContainerToolSchema)
    → prefix_tool_schema name rs tool ≡ some t
    → IsPrefixedTool name t
unfolding prefix_tool_schema
prefix_tool_schema-IsPrefixedTool name rs (object fs) t h =
    elim (Option-cases (and_then (lookup "name" fs) as_str)) [
      | inl unnamed ↦ absurd (ground arith)
      | inr (original, at) ↦
          let prefixed = string (name ⧺ "__" ⧺ original) in
          ground (
            arith,
            at,
            rewrite-name rs (object (insert "name" prefixed fs)),
            lookup-insert "name" "name" prefixed fs,
          )
    ]
prefix_tool_schema-IsPrefixedTool name rs null t h = ground arith
prefix_tool_schema-IsPrefixedTool name rs _ t h = ground arith

prefix_resource_schema-IsPrefixedResource :
    (name : String) (resource : Value) (r : RemoteMcpContainerResourceSchema)
    → prefix_resource_schema name resource ≡ some r
    → IsPrefixedResource name r
unfolding prefix_resource_schema
prefix_resource_schema-IsPrefixedResource name (object fs) r h =
    elim (Option-cases (and_then (lookup "uri" fs) as_str)) [
      | inl unnamed ↦ absurd (ground arith)
      | inr (original, at) ↦ elim (Option-cases (prefix_resource_uri_for_container name original)) [
        | inl unprefixed ↦ absurd (ground arith)
        | inr (prefixed, e) ↦ ground (arith, at, e, lookup-insert "uri" "uri" (string prefixed) fs)
      ]
    ]
prefix_resource_schema-IsPrefixedResource name null r h = ground arith
prefix_resource_schema-IsPrefixedResource name _ r h = ground arith

pub prefix_tool_schemas-IsPrefixedTool :
    (name : String) (tools : List Value) (rs : List RemoteMcpContainerResourceSchema)
    → All (IsPrefixedTool name) (prefix_tool_schemas name tools rs)
unfolding prefix_tool_schemas
prefix_tool_schemas-IsPrefixedTool name tools rs =
    All-filter_map (IsPrefixedTool name) (prefix_tool_schema name rs) tools
      (prefix_tool_schema-IsPrefixedTool name rs)

pub prefix_resource_schemas-IsPrefixedResource :
    (name : String) (resources : List Value)
    → All (IsPrefixedResource name) (prefix_resource_schemas name resources)
unfolding prefix_resource_schemas
prefix_resource_schemas-IsPrefixedResource name resources =
    All-filter_map (IsPrefixedResource name) (prefix_resource_schema name) resources
      (prefix_resource_schema-IsPrefixedResource name)
