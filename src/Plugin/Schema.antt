-- ===== src/Plugin/Schema.antt =====
-- The schemas that the client caches: `prefix_tool_schemas`, `rewrite_tool_resource_uri` and the
-- loop of `fetch_prefixed_resource_schemas`.
pub mod Laws
use brain.Base.{
  String, Option, none, some, Bool, List, ◌==◌, find, filter_map, any, map, if◌then◌else◌,
}
use brain.Base.Optional
use brain.Base.Optional.{and_then, get_or, or_else}
use brain.Base.Text.{◌⧺◌}
use brain.Json.{
  Value, string, object, Fields, lookup, insert, contains_key, get, as_str, as_object, update_key,
  update_object,
}
use brain.Plugin.Uri.{prefix_resource_uri_for_container}

pub record RemoteMcpContainerToolSchema : Type 0 where
  pub prefixed_name : String
  pub original_name : String
  pub schema : Value

pub record RemoteMcpContainerResourceSchema : Type 0 where
  pub prefixed_uri : String
  pub original_uri : String
  pub schema : Value

-- `_meta.ui.resourceUri`, or else `_meta["ui.resourceUri"]`, if it is a string.
unfoldable pub get_tool_resource_uri : Value → Option String
unfolding lookup
get_tool_resource_uri schema =
    and_then
      (and_then (get "_meta" schema) λ meta.
        or_else (and_then (get "ui" meta) λ ui. get "resourceUri" ui) (get "ui.resourceUri" meta))
      as_str

-- A key that is there gets the new URI; `none` where it is not.
abbrev replaced : String → String → Fields → Option Fields
replaced key uri fs = if contains_key key fs then some (insert key (string uri) fs) else none

abbrev set_meta_uri : String → Value → Value
set_meta_uri uri meta =
    get_or
      (or_else (update_key "ui" (update_object (replaced "resourceUri" uri)) meta)
        (update_object (replaced "ui.resourceUri" uri) meta))
      meta

unfoldable pub set_tool_resource_uri : Value → String → Value
unfolding lookup insert
set_tool_resource_uri schema uri =
    get_or (update_key "_meta" (λ meta. some (set_meta_uri uri meta)) schema) schema

unfoldable pub rewrite_tool_resource_uri : Value → List RemoteMcpContainerResourceSchema → Value
unfolding get_tool_resource_uri set_tool_resource_uri
rewrite_tool_resource_uri schema resource_schemas =
    get_or
      (and_then (get_tool_resource_uri schema) λ resource_uri.
        Optional.map
          (λ (resource : RemoteMcpContainerResourceSchema).
            set_tool_resource_uri schema resource.prefixed_uri)
          (find
            (λ (resource : RemoteMcpContainerResourceSchema). resource.original_uri == resource_uri)
            resource_schemas))
      schema

-- One round of the loop over the tools: `none` for a tool that is skipped.
unfoldable pub prefix_tool_schema :
    String → List RemoteMcpContainerResourceSchema → Value → Option RemoteMcpContainerToolSchema
unfolding rewrite_tool_resource_uri
prefix_tool_schema container_name resource_schemas tool =
    and_then (and_then (get "name" tool) as_str) λ original_name. and_then (as_object tool) λ fs.
      some (record {
        prefixed_name = container_name ⧺ "__" ⧺ original_name;
        original_name = original_name;
        schema =
            rewrite_tool_resource_uri
              (object (insert "name" (string (container_name ⧺ "__" ⧺ original_name)) fs))
              resource_schemas;
      })

unfoldable pub prefix_tool_schemas :
    String → List Value → List RemoteMcpContainerResourceSchema → List RemoteMcpContainerToolSchema
unfolding prefix_tool_schema
prefix_tool_schemas container_name tools resource_schemas =
    filter_map (prefix_tool_schema container_name resource_schemas) tools

-- One round of the loop over the resources.
unfoldable pub prefix_resource_schema : String → Value → Option RemoteMcpContainerResourceSchema
unfolding prefix_resource_uri_for_container lookup insert
prefix_resource_schema container_name resource =
    and_then (and_then (get "uri" resource) as_str) λ original_uri.
      and_then (prefix_resource_uri_for_container container_name original_uri) λ prefixed_uri.
        and_then (as_object resource) λ fs. some (record {
          prefixed_uri = prefixed_uri;
          original_uri = original_uri;
          schema = object (insert "uri" (string prefixed_uri) fs);
        })

unfoldable pub prefix_resource_schemas : String → List Value → List RemoteMcpContainerResourceSchema
unfolding prefix_resource_schema
prefix_resource_schemas container_name = filter_map (prefix_resource_schema container_name)
