-- ===== src/Router/Route.antt =====
-- `McpRouterUseCase::route_request` and the four attempts to answer a request without the upstream.
pub mod Attempts
pub mod Laws
use brain.Base.{String, Option, none, some, Bool, List, [], ◌∷◌, ◌==◌, if◌then◌else◌}
use brain.Base.Optional
use brain.Base.Optional.{and_then, get_or}
use brain.Base.Result
use brain.Base.Result.{Result, ok, err}
use brain.Base.Io
use brain.Base.Io.{Io, lift, pure, ◌>>=◌, ◌>>◌}
use brain.Domain.{Headers, ProxyError, Failure, error, McpProxyResponse}
use brain.Domain.Host.{validate_host}
use brain.Json.{Value, Codec, parsed, lookup, obj, get, as_str, as_object}
use brain.Plugin.Client.{
  RemoteMcpContainerClient, strip_prefix, has_tool, strip_resource_uri_prefix, has_resource,
}
use brain.Plugin.Requests.{call_tool, read_resource}
use brain.Proxy
use brain.Registry.{
  NativeMcpTool, NativeMcpToolOutput, NativeMcpToolError, NativeMcpResource,
  NativeMcpResourceContent, NativeMcpResourceError, error_text, display_tool_error, find_tool,
  find_resource, initialize_all,
}
use brain.Router.Responses.{
  native_tool_response, native_resource_response, native_tool_error_to_proxy_error,
  tool_not_found_response, resource_not_found_response, native_resource_error_response,
  plugin_transport_error_response, plugin_resource_transport_error_response,
}
use brain.Router.Augment.{
  McpRouterUseCase, append_tool_schemas, append_resource_schemas,
  patch_initialize_resources_capability,
}

-- `request.params` as an object, and its text at `key`.
abbrev pub params_of : Option Value → Option Value
params_of request =
    and_then request
      λ value. and_then (get "params" value) λ params. Optional.map (λ _. params) (as_object params)

abbrev pub param_text : String → Option Value → Option String
param_text key request = and_then (params_of request) λ params. and_then (get key params) as_str

-- `parsed_body.and_then(|json| json.get("method")).and_then(Value::as_str)`
abbrev pub mcp_method : Option Value → Option String
mcp_method body = and_then (and_then body (get "method")) as_str

-- `Err(error) => NativeMcpToolOutput::error_text(error.to_string())`
abbrev pub tool_output : Result NativeMcpToolError NativeMcpToolOutput → NativeMcpToolOutput
tool_output (ok output) = output
tool_output (err failure) = error_text (display_tool_error failure)

module _ {W B : Type 0} (codec : Codec B) where
  -- The answer of a native tool that is found: its errors become a result.
  unfoldable pub run_native_tool :
      Value → NativeMcpTool W → Value → Io W Failure (Option (McpProxyResponse B))
  unfolding display_tool_error native_tool_response
  run_native_tool request tool arguments w =
      let called = tool.call arguments w in
      (
        Result.◌>>=◌
            (Result.map_err error (native_tool_response codec request (tool_output called.0)))
            (λ response. ok (some response)),
        called.1,
      )

  abbrev resource_answer :
      Value
      → String
      → NativeMcpResource W
      → Result NativeMcpResourceError NativeMcpResourceContent
      → Result Failure (McpProxyResponse B)
  resource_answer request uri resource (ok content) =
      Result.map_err error
        (native_resource_response codec request resource.uri resource.mime_type content)
  resource_answer request uri resource (err failure) =
      ok (native_resource_error_response codec request uri failure)

  unfoldable pub run_native_resource :
      Value → String → NativeMcpResource W → Io W Failure (Option (McpProxyResponse B))
  unfolding native_resource_response native_resource_error_response
  run_native_resource request uri resource w =
      let done = resource.read w in
      (
        Result.◌>>=◌ (resource_answer request uri resource done.0) (λ response. ok (some response)),
        done.1,
      )

  -- A transport error of a container becomes an answer.
  abbrev pub recovered :
      (ProxyError → McpProxyResponse B)
      → Result ProxyError (McpProxyResponse B) × W
      → Result Failure (Option (McpProxyResponse B)) × W
  recovered answer (ok response, w) = (ok (some response), w)
  recovered answer (err failure, w) = (ok (some (answer failure)), w)

  abbrev pub recovering :
      (ProxyError → McpProxyResponse B)
      → Io W ProxyError (McpProxyResponse B)
      → Io W Failure (Option (McpProxyResponse B))
  recovering answer m w = recovered answer (m w)

  -- The loop over the containers of `maybe_call_plugin_tool`.
  unfoldable pub call_plugin_tool :
      Value
      → String
      → List (RemoteMcpContainerClient W B)
      → Io W Failure (Option (McpProxyResponse B))
  unfolding strip_prefix has_tool
  call_plugin_tool request name [] = pure none
  call_plugin_tool request name (client ∷ clients) = elim (strip_prefix client name) [
    | none ↦ call_plugin_tool request name clients
    | some unprefixed_name ↦
        if has_tool client unprefixed_name
        then recovering (plugin_transport_error_response codec request name)
            (call_tool codec client request unprefixed_name)
        else pure (some (tool_not_found_response codec request name))
  ]

  -- The loop over the containers of `maybe_read_plugin_resource`.
  unfoldable pub read_plugin_resource :
      Value
      → String
      → List (RemoteMcpContainerClient W B)
      → Io W Failure (Option (McpProxyResponse B))
  unfolding strip_resource_uri_prefix has_resource
  read_plugin_resource request uri [] = pure none
  read_plugin_resource request uri (client ∷ clients) =
      elim (strip_resource_uri_prefix client uri) [
        | none ↦ read_plugin_resource request uri clients
        | some original_uri ↦
            if has_resource client original_uri
            then recovering (plugin_resource_transport_error_response codec request uri)
                (read_resource codec client request original_uri)
            else pure (some (resource_not_found_response codec request uri))
      ]

  module _ (router : McpRouterUseCase W B) where
    unfoldable pub maybe_call_native_tool :
        Option Value → Io W Failure (Option (McpProxyResponse B))
    unfolding lookup find_tool run_native_tool
    maybe_call_native_tool none = pure none
    maybe_call_native_tool (some request) =
        elim (and_then (param_text "name" (some request)) (find_tool router.native_tools)) [
          | none ↦ pure none
          | some tool ↦
              run_native_tool request tool
                (get_or (and_then (params_of (some request)) (get "arguments")) (obj []))
        ]

    unfoldable pub maybe_call_plugin_tool :
        Option Value → Io W Failure (Option (McpProxyResponse B))
    unfolding lookup call_plugin_tool
    maybe_call_plugin_tool none = pure none
    maybe_call_plugin_tool (some request) = elim (param_text "name" (some request)) [
      | none ↦ pure none
      | some name ↦ call_plugin_tool request name router.plugin_containers
    ]

    unfoldable pub maybe_read_native_resource :
        Option Value → Io W Failure (Option (McpProxyResponse B))
    unfolding lookup find_resource run_native_resource
    maybe_read_native_resource none = pure none
    maybe_read_native_resource (some request) = elim (param_text "uri" (some request)) [
      | none ↦ pure none
      | some uri ↦ elim (find_resource router.native_tools uri) [
        | none ↦ pure none
        | some resource ↦ run_native_resource request uri resource
      ]
    ]

    unfoldable pub maybe_read_plugin_resource :
        Option Value → Io W Failure (Option (McpProxyResponse B))
    unfolding lookup read_plugin_resource
    maybe_read_plugin_resource none = pure none
    maybe_read_plugin_resource (some request) = elim (param_text "uri" (some request)) [
      | none ↦ pure none
      | some uri ↦ read_plugin_resource request uri router.plugin_containers
    ]

    -- `if let Some(response) = attempt? { return Ok(response); }`, and the code after it.
    abbrev pub attempt :
        Io W Failure (Option (McpProxyResponse B))
        → Io W Failure (McpProxyResponse B)
        → Io W Failure (McpProxyResponse B)
    attempt first rest = first >>= elim [ none ↦ rest | some response ↦ pure response ]

    -- The arms of the `match` on the MCP method; `forward` is the call of the upstream.
    unfoldable pub route_method :
        Option String
        → Option Value
        → Io W Failure (McpProxyResponse B)
        → Io W Failure (McpProxyResponse B)
    unfolding patch_initialize_resources_capability append_tool_schemas append_resource_schemas
    route_method none body forward = forward
    route_method (some method) body forward =
        if method == "initialize"
        then (do
          Io.map_err (λ failure. error (native_tool_error_to_proxy_error failure))
              (initialize_all router.native_tools)
          response ← forward
          pure (patch_initialize_resources_capability codec router response))
        else if method == "tools/list"
        then (do response ← forward; pure (append_tool_schemas codec router response))
        else if method == "resources/list"
        then (do response ← forward; pure (append_resource_schemas codec router response))
        else if method == "tools/call"
        then attempt (maybe_call_native_tool body) (attempt (maybe_call_plugin_tool body) forward)
        else if method == "resources/read"
        then attempt (maybe_read_native_resource body)
            (attempt (maybe_read_plugin_resource body) forward)
        else forward

    unfoldable pub route_request :
        String → String → String → Option String → Headers → B → Io W Failure (McpProxyResponse B)
    unfolding route_method
    route_request request_host method path query headers body =
        route_method (mcp_method (parsed codec body)) (parsed codec body)
          (Proxy.handle_unvalidated router.proxy request_host method path query headers body)

    unfoldable pub handle :
        String → String → String → Option String → Headers → B → Io W Failure (McpProxyResponse B)
    unfolding validate_host route_request
    handle request_host method path query headers body = do
      lift (
          Result.map_err error (
            validate_host request_host router.proxy.hostname_validation.expected_host
              router.proxy.hostname_validation.enforce))
      route_request request_host method path query headers body

    unfoldable pub handle_unvalidated :
        String → String → String → Option String → Headers → B → Io W Failure (McpProxyResponse B)
    unfolding route_request
    handle_unvalidated request_host method path query headers body =
        route_request request_host method path query headers body
