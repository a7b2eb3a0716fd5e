-- ===== src/Router/Augment.antt =====
-- The changes that `McpRouterUseCase` makes to upstream answers: tools and resources appended to a
-- list, and the `resources` capability added to the answer of `initialize`.
pub mod Laws
pub mod Patch
use brain.Base.{
  ℕ, String, Option, none, some, Bool, true, false, not, List, [], ◌∷◌, ◌++◌, ◌&&◌, ◌||◌, map, any,
  is_empty, flat_map, length, if◌then◌else◌,
}
use brain.Base.Optional
use brain.Base.Optional.{and_then, get_or, is_some}
use brain.Domain.{McpProxyResponse}
use brain.Json.{
  Value, object, obj, Codec, parsed, written, Fields, lookup, insert, contains_key, get,
  result_array, as_object, update_key, update_object, arr,
}
use brain.Plugin.Client.{
  RemoteMcpContainerClient, strip_content_length, prefixed_tool_schemas, prefixed_resource_schemas,
}
use brain.Proxy.{ProxyMcpUseCase}
use brain.Registry
use brain.Registry.{NativeMcpToolRegistry, list_schemas, list_resource_schemas}

pub record McpRouterUseCase (W B : Type 0) : Type 0 where
  pub proxy : ProxyMcpUseCase W B
  pub native_tools : NativeMcpToolRegistry W
  pub plugin_containers : List (RemoteMcpContainerClient W B)

module _ {B : Type 0} (codec : Codec B) where
  -- The same answer with another body, without its content-length headers.
  unfoldable pub with_body : McpProxyResponse B → B → McpProxyResponse B
  unfolding strip_content_length
  with_body response new_body = record {
    status = response.status;
    headers = strip_content_length response.headers;
    body = new_body;
  }

  unfoldable pub append_result_array :
      McpProxyResponse B → String → List Value → McpProxyResponse B × Option ℕ
  unfolding with_body lookup insert
  append_result_array response array_key additions =
      get_or
        (and_then (parsed codec response.body) λ body.
          and_then (result_array array_key body) λ values.
            let extended = values ++ additions in
            and_then (update_key "result" (update_key array_key (λ _. some (arr extended))) body)
              λ new_body.
                Optional.map
                  (λ (bytes : B).
                    let answer : McpProxyResponse B × Option ℕ =
                      (with_body response bytes, some (length extended)) in
                    answer)
                  (written codec new_body))
        (response, none)

  -- `result.entry("capabilities").or_insert_with(|| json!({}))`, then the insertion.
  abbrev pub patch_capabilities : Fields → Option Fields
  patch_capabilities result =
      and_then (as_object (get_or (lookup "capabilities" result) (obj []))) λ capabilities.
        if contains_key "resources" capabilities
        then none
        else some (insert "capabilities" (object (insert "resources" (obj []) capabilities)) result)

  module _ {W : Type 0} (router : McpRouterUseCase W B) where
    -- The native schemas, then those of each container.
    abbrev pub all_tool_schemas : List Value
    all_tool_schemas =
        list_schemas router.native_tools ++ flat_map prefixed_tool_schemas router.plugin_containers

    abbrev pub all_resource_schemas : List Value
    all_resource_schemas =
        list_resource_schemas router.native_tools
        ++ flat_map prefixed_resource_schemas router.plugin_containers

    unfoldable pub append_tool_schemas : McpProxyResponse B → McpProxyResponse B
    unfolding append_result_array list_schemas prefixed_tool_schemas
    append_tool_schemas response =
        if is_empty (list_schemas router.native_tools)
          && is_empty (flat_map prefixed_tool_schemas router.plugin_containers)
        then response
        else (append_result_array response "tools" all_tool_schemas).0

    unfoldable pub append_resource_schemas : McpProxyResponse B → McpProxyResponse B
    unfolding append_result_array list_resource_schemas prefixed_resource_schemas
    append_resource_schemas response =
        if is_empty (list_resource_schemas router.native_tools)
          && is_empty (flat_map prefixed_resource_schemas router.plugin_containers)
        then response
        else (append_result_array response "resources" all_resource_schemas).0

    unfoldable pub has_resources : Bool
    unfolding Registry.has_resources prefixed_resource_schemas
    has_resources =
        Registry.has_resources router.native_tools
        || any
            (λ (client : RemoteMcpContainerClient W B).
              not (is_empty (prefixed_resource_schemas client)))
            router.plugin_containers

    unfoldable pub patch_initialize_resources_capability : McpProxyResponse B → McpProxyResponse B
    unfolding has_resources with_body lookup insert
    patch_initialize_resources_capability response =
        if not has_resources
        then response
        else get_or
            (and_then (parsed codec response.body) λ body.
              if is_some (get "error" body)
              then none
              else and_then (update_key "result" (update_object patch_capabilities) body) λ patched.
                Optional.map (λ (bytes : B). with_body response bytes) (written codec patched))
            response
