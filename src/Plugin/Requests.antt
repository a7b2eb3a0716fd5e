-- ===== src/Plugin/Requests.antt =====
-- The requests of `RemoteMcpContainerClient`: tool calls, resource reads, assets, and the start-up
-- exchange that fills the cache. `version` is the package's version, which the build supplies.
pub mod Laws
use brain.Base.{
  ℕ, String, Option, none, some, Bool, true, false, List, [], ◌∷◌, ◌++◌, ◌==◌, map, if◌then◌else◌,
}
use brain.Base.Optional
use brain.Base.Optional.{and_then, get_or, is_some}
use brain.Base.Result
use brain.Base.Result.{Result, ok_or, to_option}
use brain.Base.Io.{Io, lift, pure, ◌>>=◌, ◌>>◌}
use brain.Base.Text.{◌⧺◌}
use brain.Domain.{Headers, ProxyError, bad_gateway, McpProxyRequest, McpProxyResponse, McpProxyPort}
use brain.Json.{
  Value, string, object, obj, Codec, parsed, written, lookup, insert, get, as_str, as_object,
  result_array, update_key, update_array,
}
use brain.Plugin.Uri.{prefix_resource_uri_for_container}
use brain.Plugin.Schema.{
  RemoteMcpContainerResourceSchema, prefix_tool_schemas, prefix_resource_schemas,
}
use brain.Plugin.Client.{
  RemoteMcpContainerClient, strip_content_length, filter_static_asset_request_headers, with_param,
  forward_json, build_http_url, require_success,
}

-- One content of a resources/read response: its URI is prefixed if it is the one that was asked for.
abbrev rewrite_content : String → String → Value → Value
rewrite_content original_uri prefixed_uri content =
    get_or
      (and_then (as_object content) λ fs. and_then (and_then (lookup "uri" fs) as_str) λ uri.
        if uri == original_uri then some (object (insert "uri" (string prefixed_uri) fs)) else none)
      content

module _ {W B : Type 0} (codec : Codec B) where
  module _ (client : RemoteMcpContainerClient W B) where
    unfoldable pub call_tool : Value → String → Io W ProxyError (McpProxyResponse B)
    unfolding forward_json lookup insert
    call_tool request unprefixed_tool_name = do
      forwarded ← lift (
          with_param "Plugin MCP tools/call request missing params object" "name"
            unprefixed_tool_name request)
      body ← lift (
          Result.map_err
            (λ error. bad_gateway ("failed to serialize Plugin MCP tools/call: " ⧺ error))
            (codec.to_vec forwarded))
      forward_json client body

    unfoldable pub prefix_read_resource_response_uri :
        McpProxyResponse B → String → McpProxyResponse B
    unfolding prefix_resource_uri_for_container lookup insert strip_content_length
    prefix_read_resource_response_uri response original_uri =
        get_or
          (and_then (prefix_resource_uri_for_container client.container_name original_uri)
            λ prefixed_uri. and_then (parsed codec response.body) λ body.
              if is_some (get "error" body)
              then none
              else and_then
                  (update_key "result"
                    (update_key "contents" (
                      update_array λ contents.
                        some (map (rewrite_content original_uri prefixed_uri) contents)))
                    body)
                  λ patched.
                    Optional.map
                      (λ (new_body : B).
                        let answer : McpProxyResponse B = record {
                          status = response.status;
                          headers = strip_content_length response.headers;
                          body = new_body;
                        } in
                        answer)
                      (written codec patched))
          response

    unfoldable pub read_resource : Value → String → Io W ProxyError (McpProxyResponse B)
    unfolding forward_json prefix_read_resource_response_uri
    read_resource request original_uri = do
      forwarded ← lift (
          with_param "Plugin MCP resources/read request missing params object" "uri" original_uri
            request)
      body ← lift (
          Result.map_err
            (λ error. bad_gateway ("failed to serialize Plugin MCP resources/read: " ⧺ error))
            (codec.to_vec forwarded))
      response ← forward_json client body
      pure (prefix_read_resource_response_uri response original_uri)

    unfoldable pub get_http_path :
        String → Option String → Headers → Io W ProxyError (McpProxyResponse B)
    unfolding build_http_url filter_static_asset_request_headers
    get_http_path path query headers = client.proxy (record {
      method = "GET";
      url = build_http_url client path query;
      headers = filter_static_asset_request_headers headers;
      body = codec.empty;
    })

    -- The body of a start-up request: `id` ends in `operation`, the method and the parameters follow.
    abbrev pub startup_body : String → String → Value → Value
    startup_body operation method params = obj (
        ("jsonrpc", string "2.0")
        ∷ ("id", string ("brain3-plugin-" ⧺ client.container_name ⧺ "-" ⧺ operation))
        ∷ ("method", string method)
        ∷ ("params", params)
        ∷ [])

    -- The request is written, sent, and its status checked.
    abbrev pub startup_exchange : String → String → Value → Io W ProxyError (McpProxyResponse B)
    startup_exchange operation method params = do
      body ← lift (
          Result.map_err
            (λ error. bad_gateway ("failed to serialize Plugin MCP " ⧺ method ⧺ ": " ⧺ error))
            (codec.to_vec (startup_body operation method params)))
      response ← forward_json client body
      lift (require_success client method response)
      pure response

    unfoldable pub initialize : String → Io W ProxyError Unit
    unfolding forward_json require_success
    initialize version = do
      startup_exchange "initialize" "initialize" (
          obj (
            ("protocolVersion", string "2024-11-05")
            ∷ ("capabilities", obj [])
            ∷ (
              "clientInfo",
              obj (("name", string "brain3-gateway") ∷ ("version", string version) ∷ []),
            )
            ∷ []))
      pure tt

    -- The JSON of a response, or the error that names the operation.
    abbrev pub json_of : String → McpProxyResponse B → Result ProxyError Value
    json_of operation response =
        Result.map_err
          (λ error. bad_gateway (
            "Plugin MCP Container '" ⧺ client.container_name ⧺ "' returned invalid " ⧺ operation
            ⧺ " JSON: " ⧺ error))
          (codec.from_slice response.body)

    unfoldable pub fetch_tool_schemas : Io W ProxyError (List Value)
    unfolding forward_json require_success lookup
    fetch_tool_schemas = do
      response ← startup_exchange "tools-list" "tools/list" (obj [])
      body ← lift (json_of "tools/list" response)
      lift (
          ok_or
            (bad_gateway (
              "Plugin MCP Container '" ⧺ client.container_name
              ⧺ "' tools/list response missing result.tools array"))
            (result_array "tools" body))

    -- What a body of a resources/list response leaves in the cache.
    abbrev pub resources_in : Value → List RemoteMcpContainerResourceSchema
    resources_in body =
        if is_some (get "error" body)
        then []
        else prefix_resource_schemas client.container_name
            (get_or (result_array "resources" body) [])

    abbrev pub resources_of :
        McpProxyResponse B → Io W ProxyError (List RemoteMcpContainerResourceSchema)
    resources_of response = do
      body ← lift (json_of "resources/list" response)
      pure (resources_in body)

    unfoldable pub fetch_prefixed_resource_schemas :
        Io W ProxyError (List RemoteMcpContainerResourceSchema)
    unfolding forward_json require_success lookup prefix_resource_schemas
    fetch_prefixed_resource_schemas =
        startup_exchange "resources-list" "resources/list" (obj []) >>= resources_of

    -- The client with its cache filled.
    abbrev pub cached :
        List Value → List RemoteMcpContainerResourceSchema → RemoteMcpContainerClient W B
    cached tools resources = record client {
      tool_schemas = prefix_tool_schemas client.container_name tools resources;
      resource_schemas = resources;
    }

    abbrev pub with_tools : List Value → Io W ProxyError (RemoteMcpContainerClient W B)
    with_tools tools = do resources ← fetch_prefixed_resource_schemas; pure (cached tools resources)

    abbrev pub initialized : Unit {0} → Io W ProxyError (RemoteMcpContainerClient W B)
    initialized _ = fetch_tool_schemas >>= with_tools

-- The client that the start-up exchange runs on.
abbrev pub empty_client :
    {W B : Type 0}
    → String
    → String
    → Option String
    → McpProxyPort W B
    → RemoteMcpContainerClient W B
empty_client container_name mcp_url bearer_token proxy = record {
  container_name = container_name;
  mcp_url = mcp_url;
  bearer_token = bearer_token;
  proxy = proxy;
  tool_schemas = [];
  resource_schemas = [];
}

unfoldable pub initialize_and_cache_tools :
    {W B : Type 0}
    → Codec B
    → String
    → String
    → String
    → Option String
    → McpProxyPort W B
    → Io W ProxyError (RemoteMcpContainerClient W B)
unfolding initialize fetch_tool_schemas fetch_prefixed_resource_schemas prefix_tool_schemas
initialize_and_cache_tools codec version container_name mcp_url bearer_token proxy =
    let client = empty_client container_name mcp_url bearer_token proxy in
    initialize codec client version >>= initialized codec client
