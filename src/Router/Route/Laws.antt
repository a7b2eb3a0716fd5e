-- ===== src/Router/Route/Laws.antt =====
-- Who answers a request: a native tool, a container, the gateway itself or the upstream.
use brain.Base.{◌≡◌, String, Option, none, some, List, [], ◌∷◌, ◌++◌, All, if◌then◌else◌}
use brain.Base.Optional.{and_then, get_or}
use brain.Base.Result
use brain.Base.Result.{ok, err}
use brain.Domain.{Headers, error}
use brain.Json.{Value, Codec, obj, get}
use brain.Plugin.Client.{
  RemoteMcpContainerClient, strip_prefix, has_tool, strip_resource_uri_prefix, has_resource,
}
use brain.Plugin.Requests.{call_tool, read_resource}
use brain.Proxy
use brain.Registry.{NativeMcpTool, find_tool, find_resource}
use brain.Router.Responses.{
  native_tool_response, tool_not_found_response, resource_not_found_response,
  plugin_transport_error_response, plugin_resource_transport_error_response,
}
use brain.Router.Augment.{McpRouterUseCase}
use brain.Router.Route.{params_of, tool_output, route_request}
use brain.Router.Route.Attempts.{IsRequest, answered, call_native, call_plugin, read_plugin}

module _ {W B : Type 0} (codec : Codec B) (router : McpRouterUseCase W B)
    (request_host method path : String) (query : Option String) (headers : Headers) (body : B) where
  module _ (request : Value) where
    -- A call of a native tool runs that tool, once, on the call's arguments, or on an empty object
    -- without them; its output, or its error as an output, is the answer. No container and no upstream
    -- takes part, whatever their tools are called.
    pub route_request-native_tool :
        (name : String) (tool : NativeMcpTool W) (w : W)
        → IsRequest codec body request "tools/call" "name" name
        → find_tool router.native_tools name ≡ some tool
        → let called =
            tool.call (get_or (and_then (params_of (some request)) (get "arguments")) (obj [])) w in
          route_request codec router request_host method path query headers body w ≡ (
            Result.map_err error (native_tool_response codec request (tool_output called.0)),
            called.1,
          )
    unfolding route_request
    route_request-native_tool name tool w r found =
        rw (r.reads, r.method_is)
          (call_native codec router request
            (Proxy.handle_unvalidated router.proxy request_host method path query headers body) w
            name tool r.text_is found)

    -- A call of a name that no native tool has is answered by the first container that claims the
    -- name's prefix, and by no other and not by the upstream. If that container has listed the tool,
    -- the call is forwarded to it under the container's own name, and a transport error becomes a
    -- JSON-RPC error; if not, the answer is that the tool is not found, and nothing is sent.
    pub route_request-plugin_tool :
        (name : String) (client : RemoteMcpContainerClient W B)
        (before after : List (RemoteMcpContainerClient W B)) (unprefixed : String) (w : W)
        → IsRequest codec body request "tools/call" "name" name
        → find_tool router.native_tools name ≡ none
        → router.plugin_containers ≡ before ++ client ∷ after
        → All (λ (c : RemoteMcpContainerClient W B). strip_prefix c name ≡ none) before
        → strip_prefix client name ≡ some unprefixed
        → route_request codec router request_host method path query headers body w ≡ (
            if has_tool client unprefixed
            then answered
                (plugin_transport_error_response codec request name)
                (call_tool codec client request unprefixed w)
            else (ok (tool_not_found_response codec request name), w))
    unfolding route_request
    route_request-plugin_tool name client before after unprefixed w r unknown listed others
          claimed =
        rw (r.reads, r.method_is)
          (call_plugin codec router request
            (Proxy.handle_unvalidated router.proxy request_host method path query headers body) w
            name client before after unprefixed r.text_is unknown listed others claimed)

    -- A read of a URI that no native resource has is answered by the first container that claims the
    -- URI's prefix, and by no other and not by the upstream. If that container has listed the
    -- resource, the read is forwarded to it under the container's own URI, and a transport error
    -- becomes a JSON-RPC error; if not, the answer is that the resource is not found, and nothing is
    -- sent.
    pub route_request-plugin_resource :
        (uri : String) (client : RemoteMcpContainerClient W B)
        (before after : List (RemoteMcpContainerClient W B)) (original : String) (w : W)
        → IsRequest codec body request "resources/read" "uri" uri
        → find_resource router.native_tools uri ≡ none
        → router.plugin_containers ≡ before ++ client ∷ after
        → All (λ (c : RemoteMcpContainerClient W B). strip_resource_uri_prefix c uri ≡ none) before
        → strip_resource_uri_prefix client uri ≡ some original
        → route_request codec router request_host method path query headers body w ≡ (
            if has_resource client original
            then answered
                (plugin_resource_transport_error_response codec request uri)
                (read_resource codec client request original w)
            else (ok (resource_not_found_response codec request uri), w))
    unfolding route_request
    route_request-plugin_resource uri client before after original w r unknown listed others
          claimed =
        rw (r.reads, r.method_is)
          (read_plugin codec router request
            (Proxy.handle_unvalidated router.proxy request_host method path query headers body) w
            uri client before after original r.text_is unknown listed others claimed)
