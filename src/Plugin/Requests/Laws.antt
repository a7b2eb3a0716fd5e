-- ===== src/Plugin/Requests/Laws.antt =====
-- The requests that are sent to a Plugin MCP Container, and the client that the start-up builds.
use brain.Base.{
  ◌≡◌, refl, inl, inr, String, Option, none, some, List, [], ◌++◌, ◌==◌, arith, All, Bool-cases,
  if◌then◌else◌,
}
use brain.Base.Optional.{and_then, get_or, is_some}
use brain.Base.Result.{ok, err}
use brain.Base.Io.{lift, pure, Yields, Yields-bind, Yields-any, Yields-pure}
use brain.Domain.{bad_gateway, McpProxyRequest, McpProxyPort}
use brain.Json.{
  Value, string, object, Fields, Codec, lookup, insert, obj, get, result_array, as_object,
}
use brain.Json.Laws.{lookup-insert, IsLawful}
use brain.Plugin.Client.{RemoteMcpContainerClient, json_headers, bearer_headers}
use brain.Plugin.Client.Laws.{IsCached}
use brain.Plugin.Schema.{RemoteMcpContainerResourceSchema}
use brain.Plugin.Schema.Laws.{
  IsPrefixedResource, prefix_tool_schemas-IsPrefixedTool,
  prefix_resource_schemas-IsPrefixedResource,
}
use brain.Plugin.Requests.{
  startup_exchange, json_of, resources_in, resources_of, cached, with_tools, initialized,
  initialize, fetch_tool_schemas, empty_client, fetch_prefixed_resource_schemas, call_tool,
  initialize_and_cache_tools,
}

module _ {W B : Type 0} (codec : Codec B) (client : RemoteMcpContainerClient W B) where
  -- A request to the container's address with the gateway's own headers.
  abbrev pub container_request : B → McpProxyRequest B
  container_request bytes = record {
    method = "POST";
    url = client.mcp_url;
    headers = json_headers ++ bearer_headers client.bearer_token;
    body = bytes;
  }

  -- The body that is sent for a tool call: the client's request with another `params.name`.
  pub record IsToolCall (fs params : Fields) (name : String) (sent : Value) : Type 0 where
    pub sent_params : Fields
    pub keys :
        (key : String)
        → get key sent ≡ (if "params" == key then some (object sent_params) else lookup key fs)
    pub param_keys :
        (key : String)
        → lookup key sent_params ≡ (if "name" == key then some (string name) else lookup key params)

  -- A tool call is forwarded as one request: to the container's address, with the gateway's own
  -- headers and token and none of the client's, and with the client's body in which only the tool's
  -- name is replaced. The answer is the container's.
  pub call_tool-IsToolCall :
      (fs params : Fields) (name : String) (w : W)
      → IsLawful codec
      → lookup "params" fs ≡ some (object params)
      → (bytes : B) × (sent : Value) × (call_tool codec client (object fs) name w
          ≡ client.proxy (container_request bytes) w)
        × (codec.from_slice bytes ≡ ok sent)
        × IsToolCall fs params name sent
  unfolding call_tool
  call_tool-IsToolCall fs params name w lawful at =
      let renamed = insert "name" (string name) params in
      let sent = object (insert "params" (object renamed) fs) in
      let (bytes, written, read) = lawful.round sent in
      (
        bytes,
        sent,
        rw (at, written),
        read,
        record {
          sent_params = renamed;
          keys = λ key. lookup-insert "params" key (object renamed) fs;
          param_keys = λ key. lookup-insert "name" key (string name) params;
        },
      )

  -- A call whose `params` is no object is refused, and nothing is sent.
  pub call_tool-refused :
      (request : Value) (name : String) (w : W)
      → and_then (get "params" request) as_object ≡ none
      → call_tool codec client request name w
        ≡ (err (bad_gateway "Plugin MCP tools/call request missing params object"), w)
  unfolding call_tool
  call_tool-refused (object fs) name w h = ground arith
  call_tool-refused Value.null name w h = ground arith
  call_tool-refused _ name w h = ground arith

module _ {W B : Type 0} (codec : Codec B) where
  resources_in-IsPrefixedResource :
      (client : RemoteMcpContainerClient W B) (body : Value)
      → All (IsPrefixedResource client.container_name) (resources_in codec client body)
  resources_in-IsPrefixedResource client body = elim (Bool-cases (is_some (get "error" body))) [
    | inl failed ↦ rw failed tt
    | inr fine ↦ rw fine (
        prefix_resource_schemas-IsPrefixedResource client.container_name
          (get_or (result_array "resources" body) []))
  ]

  fetch_prefixed_resource_schemas-Yields :
      (client : RemoteMcpContainerClient W B)
      → Yields
          (All (IsPrefixedResource client.container_name))
          (fetch_prefixed_resource_schemas codec client)
  unfolding fetch_prefixed_resource_schemas
  fetch_prefixed_resource_schemas-Yields client =
      let IsGood = All (IsPrefixedResource client.container_name) in
      Yields-bind (λ _. Unit) IsGood
        (startup_exchange codec client "resources-list" "resources/list" (obj []))
        (resources_of codec client) (Yields-any _)
        λ response _.
          Yields-bind (λ _. Unit) IsGood (lift (json_of codec client "resources/list" response))
            (λ body. pure (resources_in codec client body)) (Yields-any _)
            λ body _. Yields-pure IsGood _ (resources_in-IsPrefixedResource client body)

  -- The client with some cache, built from the given parts.
  abbrev IsBuilt : String → String → Option String → RemoteMcpContainerClient W B → Type 0
  IsBuilt name url token client =
      IsCached client
      × (client.container_name ≡ name)
      × (client.mcp_url ≡ url)
      × (client.bearer_token ≡ token)

  cached-IsBuilt :
      (client : RemoteMcpContainerClient W B) (tools : List Value)
      (resources : List RemoteMcpContainerResourceSchema)
      → All (IsPrefixedResource client.container_name) resources
      → IsBuilt client.container_name client.mcp_url client.bearer_token
          (cached codec client tools resources)
  cached-IsBuilt client tools resources good = (
    record {
      tools = prefix_tool_schemas-IsPrefixedTool client.container_name tools resources;
      resources = good;
    },
    refl,
    refl,
    refl,
  )

  initialized-Yields :
      (client : RemoteMcpContainerClient W B)
      → Yields
          (IsBuilt client.container_name client.mcp_url client.bearer_token)
          (initialized codec client tt)
  initialized-Yields client =
      let P = IsBuilt client.container_name client.mcp_url client.bearer_token in
      Yields-bind (λ _. Unit) P (fetch_tool_schemas codec client) (with_tools codec client)
        (Yields-any _)
        λ tools _.
          Yields-bind (All (IsPrefixedResource client.container_name)) P
            (fetch_prefixed_resource_schemas codec client)
            (λ resources. pure (cached codec client tools resources))
            (fetch_prefixed_resource_schemas-Yields client)
            λ resources good. Yields-pure P _ (cached-IsBuilt client tools resources good)

  -- A client that the start-up exchange yields has the given name, address and token, and has cached
  -- nothing but tools and resources under prefixed names and URIs.
  pub initialize_and_cache_tools-IsCached :
      (version name url : String) (token : Option String) (proxy : McpProxyPort W B) (w : W)
      (client : RemoteMcpContainerClient W B)
      → (initialize_and_cache_tools codec version name url token proxy w).0 ≡ ok client
      → IsCached client
        × (client.container_name ≡ name)
        × (client.mcp_url ≡ url)
        × (client.bearer_token ≡ token)
  unfolding initialize_and_cache_tools
  initialize_and_cache_tools-IsCached version name url token proxy w client h =
      (Yields-bind (λ _. Unit) (IsBuilt name url token)
          (initialize codec (empty_client name url token proxy) version)
          (initialized codec (empty_client name url token proxy)) (Yields-any _)
          (λ _ _. initialized-Yields (empty_client name url token proxy))).at
        w client h
