-- ===== src/Router/Route/Attempts.antt =====
-- The attempts to answer a request without the upstream: when each finds somebody to ask.
use brain.Base.{
  ◌≡◌, refl, inl, inr, String, none, some, List, [], ◌∷◌, ◌++◌, arith, All, Bool-cases,
  if◌then◌else◌,
}
use brain.Base.Optional.{and_then, get_or}
use brain.Base.Io.{Io, pure}
use brain.Base.Result.{Result, ok, err}
use brain.Domain.{ProxyError, Failure, error, McpProxyResponse}
use brain.Base.Result
use brain.Json.{Value, Codec, parsed, obj, get}
use brain.Plugin.Client.{
  RemoteMcpContainerClient, strip_prefix, has_tool, strip_resource_uri_prefix, has_resource,
}
use brain.Plugin.Requests.{call_tool, read_resource}
use brain.Registry.{NativeMcpTool, find_tool, find_resource}
use brain.Router.Responses.{
  native_tool_response, tool_not_found_response, resource_not_found_response,
  plugin_transport_error_response, plugin_resource_transport_error_response,
}
use brain.Router.Augment.{McpRouterUseCase}
use brain.Router.Route.{
  params_of, param_text, tool_output, run_native_tool, call_plugin_tool, read_plugin_resource,
  recovering, maybe_call_native_tool, maybe_call_plugin_tool, maybe_read_native_resource,
  maybe_read_plugin_resource, attempt, mcp_method, route_method,
}

-- The body of a request is the JSON `request` with this MCP method and this text in its params.
pub record IsRequest {B : Type 0} (codec : Codec B) (body : B) (request : Value)
    (method key text : String) : Type 0 where
  pub reads : parsed codec body ≡ some request
  pub method_is : mcp_method (some request) ≡ some method
  pub text_is : param_text key (some request) ≡ some text

-- The answer of a container, or the one made of the error.
abbrev pub answered :
    {W B : Type 0}
    → (ProxyError → McpProxyResponse B)
    → Result ProxyError (McpProxyResponse B) × W
    → Result Failure (McpProxyResponse B) × W
answered answer (ok response, w) = (ok response, w)
answered answer (err failure, w) = (ok (answer failure), w)

module _ {W B : Type 0} (codec : Codec B) where
  -- Containers that do not claim a name are passed over.
  pub call_plugin_tool-skip :
      (request : Value) (name : String) (before rest : List (RemoteMcpContainerClient W B))
      → All (λ (c : RemoteMcpContainerClient W B). strip_prefix c name ≡ none) before
      → call_plugin_tool codec request name (before ++ rest)
        ≡ call_plugin_tool codec request name rest
  unfolding call_plugin_tool
  call_plugin_tool-skip request name [] rest h = refl
  call_plugin_tool-skip request name (c ∷ before) rest h =
      rw (h.0, call_plugin_tool) (call_plugin_tool-skip request name before rest h.1)

  pub read_plugin_resource-skip :
      (request : Value) (uri : String) (before rest : List (RemoteMcpContainerClient W B))
      → All (λ (c : RemoteMcpContainerClient W B). strip_resource_uri_prefix c uri ≡ none) before
      → read_plugin_resource codec request uri (before ++ rest)
        ≡ read_plugin_resource codec request uri rest
  unfolding read_plugin_resource
  read_plugin_resource-skip request uri [] rest h = refl
  read_plugin_resource-skip request uri (c ∷ before) rest h =
      rw (h.0, read_plugin_resource) (read_plugin_resource-skip request uri before rest h.1)

module _ {W B : Type 0} (codec : Codec B) (router : McpRouterUseCase W B) where
  -- A container's answer, or the one made of its error, ends the attempts.
  pub attempt-recovering :
      (answer : ProxyError → McpProxyResponse B) (m : Io W ProxyError (McpProxyResponse B))
      (rest : Io W Failure (McpProxyResponse B)) (w : W)
      → attempt codec router (recovering codec answer m) rest w ≡ answered answer (m w)
  attempt-recovering answer m rest w = ground arith

  pub run_native_tool-attempt :
      (request : Value) (tool : NativeMcpTool W) (arguments : Value)
      (rest : Io W Failure (McpProxyResponse B)) (w : W)
      → attempt codec router (run_native_tool codec request tool arguments) rest w ≡ (
        Result.map_err error
            (native_tool_response codec request (tool_output (tool.call arguments w).0)),
        (tool.call arguments w).1,
      )
  unfolding run_native_tool
  run_native_tool-attempt request tool arguments rest w = ground arith

module _ {W B : Type 0} (codec : Codec B) (router : McpRouterUseCase W B) (request : Value) where
  pub native_tool-found :
      (name : String) (tool : NativeMcpTool W)
      → param_text "name" (some request) ≡ some name
      → find_tool router.native_tools name ≡ some tool
      → maybe_call_native_tool codec router (some request)
        ≡ run_native_tool codec request tool
            (get_or (and_then (params_of (some request)) (get "arguments")) (obj []))
  unfolding maybe_call_native_tool
  native_tool-found name tool at found = rw (at, found, maybe_call_native_tool)

  pub native_tool-unknown :
      (name : String)
      → param_text "name" (some request) ≡ some name
      → find_tool router.native_tools name ≡ none
      → maybe_call_native_tool codec router (some request) ≡ pure none
  unfolding maybe_call_native_tool
  native_tool-unknown name at unknown = rw (at, unknown, maybe_call_native_tool)

  pub plugin_tool-named :
      (name : String)
      → param_text "name" (some request) ≡ some name
      → maybe_call_plugin_tool codec router (some request)
        ≡ call_plugin_tool codec request name router.plugin_containers
  unfolding maybe_call_plugin_tool
  plugin_tool-named name at = rw (at, maybe_call_plugin_tool)

  pub native_resource-unknown :
      (uri : String)
      → param_text "uri" (some request) ≡ some uri
      → find_resource router.native_tools uri ≡ none
      → maybe_read_native_resource codec router (some request) ≡ pure none
  unfolding maybe_read_native_resource
  native_resource-unknown uri at unknown = rw (at, unknown, maybe_read_native_resource)

  pub plugin_resource-named :
      (uri : String)
      → param_text "uri" (some request) ≡ some uri
      → maybe_read_plugin_resource codec router (some request)
        ≡ read_plugin_resource codec request uri router.plugin_containers
  unfolding maybe_read_plugin_resource
  plugin_resource-named uri at = rw (at, maybe_read_plugin_resource)

  module _ (forward : Io W Failure (McpProxyResponse B)) (w : W) where
    pub call_native :
        (name : String) (tool : NativeMcpTool W)
        → param_text "name" (some request) ≡ some name
        → find_tool router.native_tools name ≡ some tool
        → let called =
            tool.call (get_or (and_then (params_of (some request)) (get "arguments")) (obj [])) w in
          route_method codec router (some "tools/call") (some request) forward w ≡ (
            Result.map_err error (native_tool_response codec request (tool_output called.0)),
            called.1,
          )
    unfolding route_method
    call_native name tool at found =
        rw (native_tool-found name tool at found)
          (run_native_tool-attempt codec router request tool _ _ w)

    pub call_plugin :
        (name : String) (client : RemoteMcpContainerClient W B)
        (before after : List (RemoteMcpContainerClient W B)) (unprefixed : String)
        → param_text "name" (some request) ≡ some name
        → find_tool router.native_tools name ≡ none
        → router.plugin_containers ≡ before ++ client ∷ after
        → All (λ (c : RemoteMcpContainerClient W B). strip_prefix c name ≡ none) before
        → strip_prefix client name ≡ some unprefixed
        → route_method codec router (some "tools/call") (some request) forward w ≡ (
            if has_tool client unprefixed
            then answered
                (plugin_transport_error_response codec request name)
                (call_tool codec client request unprefixed w)
            else (ok (tool_not_found_response codec request name), w))
    unfolding route_method call_plugin_tool
    call_plugin name client before after unprefixed at unknown listed others claimed =
        rw
          (
            native_tool-unknown name at unknown,
            plugin_tool-named name at,
            listed,
            call_plugin_tool-skip codec request name before (client ∷ after) others,
          )
          (rw (claimed, call_plugin_tool)
            (elim (Bool-cases (has_tool client unprefixed)) [
              | inl known ↦ rw known (
                  attempt-recovering codec router
                    (plugin_transport_error_response codec request name)
                    (call_tool codec client request unprefixed) forward w)
              | inr strange ↦ rw strange
            ]))

    pub read_plugin :
        (uri : String) (client : RemoteMcpContainerClient W B)
        (before after : List (RemoteMcpContainerClient W B)) (original : String)
        → param_text "uri" (some request) ≡ some uri
        → find_resource router.native_tools uri ≡ none
        → router.plugin_containers ≡ before ++ client ∷ after
        → All (λ (c : RemoteMcpContainerClient W B). strip_resource_uri_prefix c uri ≡ none) before
        → strip_resource_uri_prefix client uri ≡ some original
        → route_method codec router (some "resources/read") (some request) forward w ≡ (
            if has_resource client original
            then answered
                (plugin_resource_transport_error_response codec request uri)
                (read_resource codec client request original w)
            else (ok (resource_not_found_response codec request uri), w))
    unfolding route_method read_plugin_resource
    read_plugin uri client before after original at unknown listed others claimed =
        rw
          (
            native_resource-unknown uri at unknown,
            plugin_resource-named uri at,
            listed,
            read_plugin_resource-skip codec request uri before (client ∷ after) others,
          )
          (rw (claimed, read_plugin_resource)
            (elim (Bool-cases (has_resource client original)) [
              | inl known ↦ rw known (
                  attempt-recovering codec router
                    (plugin_resource_transport_error_response codec request uri)
                    (read_resource codec client request original) forward w)
              | inr strange ↦ rw strange
            ]))
