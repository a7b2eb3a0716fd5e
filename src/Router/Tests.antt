-- ===== src/Router/Tests.antt =====
-- The router at concrete requests.
use brain.Base.{◌≡◌, refl, none, some, [], ◌∷◌}
use brain.Base.Result
use brain.Base.Result.{Result, err}
use brain.Domain.{Failure, error, McpProxyResponse}
use brain.Json.{Value, fields, string, obj, arr, lookup}
use brain.Plugin.Client.{strip_prefix, has_tool, strip_resource_uri_prefix, has_resource}
use brain.Plugin.Requests.{call_tool, read_resource}
use brain.Registry.{find_tool, find_resource, execution_failed}
use brain.Router.Responses.{
  native_tool_response, plugin_transport_error_response, plugin_resource_transport_error_response,
}
use brain.Router.Augment.{
  has_resources, patch_initialize_resources_capability, append_tool_schemas, all_tool_schemas,
}
use brain.Router.Augment.Laws.{IsExtended, append_tool_schemas-IsExtended}
use brain.Router.Augment.Patch.{IsPatched, patch_initialize-IsPatched}
use brain.Router.Route.{tool_output, route_request}
use brain.Router.Route.Attempts.{answered}
use brain.Router.Route.Laws.{
  route_request-native_tool, route_request-plugin_tool, route_request-plugin_resource,
}
use brain.Samples.{
  Bytes, Sent, codec, codec-IsLawful, router, client, other_client, clock, headers, mcp_request,
}

abbrev routed : Value → Sent → Result Failure (McpProxyResponse Bytes) × Sent
routed request =
    route_request codec router "brain.example" "POST" "/mcp" none headers (some request)

abbrev search : Value
search = mcp_request "tools/call" "name" "notes__search"

route_request-plugin_tool_example :
    routed search []
    ≡ answered
        (plugin_transport_error_response codec search "notes__search")
        (call_tool codec client search "search" [])
unfolding lookup find_tool strip_prefix has_tool
route_request-plugin_tool_example =
    route_request-plugin_tool codec router "brain.example" "POST" "/mcp" none headers (some search)
      search "notes__search" client (other_client ∷ []) [] "search" []
      (record { reads = refl; method_is = refl; text_is = refl }) refl refl (refl, tt) refl

abbrev view : Value
view = mcp_request "resources/read" "uri" "ui://notes__view/main"

route_request-plugin_resource_example :
    routed view []
    ≡ answered
        (plugin_resource_transport_error_response codec view "ui://notes__view/main")
        (read_resource codec client view "ui://view/main" [])
unfolding lookup find_resource strip_resource_uri_prefix has_resource
route_request-plugin_resource_example =
    route_request-plugin_resource codec router "brain.example" "POST" "/mcp" none headers
      (some view) view "ui://notes__view/main" client (other_client ∷ []) [] "ui://view/main" []
      (record { reads = refl; method_is = refl; text_is = refl }) refl refl (refl, tt) refl

abbrev tell_time : Value
tell_time = mcp_request "tools/call" "name" "clock"

route_request-native_tool_example : routed tell_time [] ≡ (
  Result.map_err error
      (native_tool_response codec tell_time (tool_output (err (execution_failed "no clock")))),
  [],
)
unfolding lookup find_tool
route_request-native_tool_example =
    route_request-native_tool codec router "brain.example" "POST" "/mcp" none headers
      (some tell_time) tell_time "clock" clock []
      (record { reads = refl; method_is = refl; text_is = refl }) refl

-- An answer of the upstream that lists one tool and one resource.
abbrev listed : Value
listed = obj (
    (
      "result",
      obj (
          ("tools", arr (obj (("name", string "read") ∷ []) ∷ []))
          ∷ ("resources", arr (obj (("uri", string "note://1") ∷ []) ∷ []))
          ∷ []),
    )
    ∷ [])

abbrev upstream : McpProxyResponse Bytes
upstream = record { status = 200; headers = []; body = some listed }

append_tool_schemas-IsExtended_example :
    IsExtended codec "tools" listed
      (obj (("name", string "read") ∷ []) ∷ all_tool_schemas codec router)
      upstream
      (append_tool_schemas codec router upstream)
unfolding lookup
append_tool_schemas-IsExtended_example =
    append_tool_schemas-IsExtended codec router upstream listed
      (obj (("name", string "read") ∷ []) ∷ []) codec-IsLawful refl refl

abbrev initialized : Value
initialized = obj (("result", obj (("capabilities", obj (("tools", obj []) ∷ [])) ∷ [])) ∷ [])

abbrev initialize_answer : McpProxyResponse Bytes
initialize_answer = record { status = 200; headers = []; body = some initialized }

patch_initialize-IsPatched_example :
    IsPatched codec
      (fields (("result", obj (("capabilities", obj (("tools", obj []) ∷ [])) ∷ [])) ∷ []))
      (fields (("capabilities", obj (("tools", obj []) ∷ [])) ∷ []))
      (fields (("tools", obj []) ∷ []))
      initialize_answer
      (patch_initialize_resources_capability codec router initialize_answer)
unfolding lookup has_resources
patch_initialize-IsPatched_example =
    patch_initialize-IsPatched codec router initialize_answer
      (fields (("result", obj (("capabilities", obj (("tools", obj []) ∷ [])) ∷ [])) ∷ []))
      (fields (("capabilities", obj (("tools", obj []) ∷ [])) ∷ []))
      (fields (("tools", obj []) ∷ [])) codec-IsLawful refl refl refl refl refl
