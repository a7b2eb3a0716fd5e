-- ===== src/Plugin/Tests.antt =====
-- The client of a container at concrete inputs.
use brain.Base.{◌≡◌, refl, ◌⊎◌, some, true, [], ◌∷◌, ◌++◌, All}
use brain.Base.Text.{is_empty}
use brain.Base.Result.{ok}
use brain.Domain.{McpProxyPort}
use brain.Json.{Value, Fields, string, object, obj, arr, fields, lookup}
use brain.Plugin.Uri.{prefix_resource_uri_for_container, strip_resource_uri_prefix_for_container}
use brain.Plugin.Uri.RoundTrip.{strip-prefix_uri, prefix-strip_uri}
use brain.Plugin.Schema.{RemoteMcpContainerToolSchema, RemoteMcpContainerResourceSchema}
use brain.Plugin.Client.{
  RemoteMcpContainerClient, strip_prefix, has_tool, strip_resource_uri_prefix, has_resource,
}
use brain.Plugin.Client.Laws.{IsCached, tools_IsAccepted, resources_IsAccepted}
use brain.Plugin.Requests.{call_tool, initialize_and_cache_tools}
use brain.Plugin.Requests.Laws.{
  IsToolCall, container_request, call_tool-IsToolCall, initialize_and_cache_tools-IsCached,
}
use brain.Samples.{Bytes, Sent, codec, codec-IsLawful, client, tool_schema, resource_schema}

strip-prefix_uri_example :
    strip_resource_uri_prefix_for_container "notes" "ui://notes__view/main" ≡ some "ui://view/main"
unfolding prefix_resource_uri_for_container
strip-prefix_uri_example =
    strip-prefix_uri "notes" "ui://view/main" "ui://notes__view/main" refl refl

prefix-strip_uri_example :
    prefix_resource_uri_for_container "notes" "ui://view/main" ≡ some "ui://notes__view/main"
unfolding strip_resource_uri_prefix_for_container
prefix-strip_uri_example = prefix-strip_uri "notes" "ui://notes__view/main" "ui://view/main" refl

client-IsCached : IsCached client
unfolding lookup prefix_resource_uri_for_container
client-IsCached = record {
  tools = (record { joined = refl; shown = refl }, tt);
  resources = (record { prefixed = refl; shown = refl }, tt);
}

tools_IsAccepted_example :
    All
      (λ (t : RemoteMcpContainerToolSchema).
        (is_empty t.original_name ≡ true)
        ⊎ ((strip_prefix client t.prefixed_name ≡ some t.original_name)
            × (has_tool client t.original_name ≡ true)))
      (tool_schema ∷ [])
tools_IsAccepted_example = tools_IsAccepted client client-IsCached

resources_IsAccepted_example :
    All
      (λ (r : RemoteMcpContainerResourceSchema).
        (strip_resource_uri_prefix client r.prefixed_uri ≡ some r.original_uri)
        × (has_resource client r.original_uri ≡ true))
      (resource_schema ∷ [])
resources_IsAccepted_example = resources_IsAccepted client client-IsCached refl

-- A tool that opens a resource of its container.
abbrev view_tool : Value
view_tool = obj (
    ("name", string "view")
    ∷ ("_meta", obj (("ui", obj (("resourceUri", string "ui://view/main") ∷ [])) ∷ []))
    ∷ [])

abbrev call_params : Fields
call_params = fields (("name", string "notes__search") ∷ ("arguments", obj []) ∷ [])

abbrev call_fields : Fields
call_fields = fields (("id", string "1") ∷ ("params", object call_params) ∷ [])

call_tool-IsToolCall_example :
    (bytes : Bytes) × (sent : Value) × (call_tool codec client (object call_fields) "search" []
      ≡ client.proxy (container_request codec client bytes) [])
    × (codec.from_slice bytes ≡ ok sent)
    × IsToolCall codec client call_fields call_params "search" sent
unfolding lookup
call_tool-IsToolCall_example =
    call_tool-IsToolCall codec client call_fields call_params "search" [] codec-IsLawful refl

-- A container with one tool and one resource, which answers each request with both lists.
abbrev lists : Value
lists = obj (
    (
      "result",
      obj (
          ("tools", arr (obj (("name", string "search") ∷ []) ∷ []))
          ∷ ("resources", arr (obj (("uri", string "ui://view/main") ∷ []) ∷ []))
          ∷ []),
    )
    ∷ [])

abbrev container : McpProxyPort Sent Bytes
container request sent =
    (ok (record { status = 200; headers = []; body = some lists }), sent ++ request ∷ [])

abbrev started : RemoteMcpContainerClient Sent Bytes
started = record {
  container_name = "notes";
  mcp_url = "http://127.0.0.1:9000/mcp";
  bearer_token = some "container";
  proxy = container;
  tool_schemas = tool_schema ∷ [];
  resource_schemas = resource_schema ∷ [];
}

initialize_and_cache_tools-IsCached_example :
    IsCached started
    × (started.container_name ≡ "notes")
    × (started.mcp_url ≡ "http://127.0.0.1:9000/mcp")
    × (started.bearer_token ≡ some "container")
unfolding initialize_and_cache_tools
initialize_and_cache_tools-IsCached_example =
    initialize_and_cache_tools-IsCached codec "0.1.0" "notes" "http://127.0.0.1:9000/mcp"
      (some "container") container [] started refl
