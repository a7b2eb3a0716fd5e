-- ===== src/Plugin/Client.antt =====
-- `RemoteMcpContainerClient`: its construction, its queries and the requests that it sends.
pub mod Laws
use brain.Base.{
  ℕ, String, Option, none, some, Bool, List, [], ◌∷◌, ◌++◌, ◌==◌, ◌&&◌, not, any, keep, map, leb,
  ltb, if◌then◌else◌,
}
use brain.Base.Optional
use brain.Base.Optional.{and_then, get_or}
use brain.Base.Result
use brain.Base.Result.{Result, ok, err, ok_or, to_option}
use brain.Base.Io.{Io, lift, pure, ◌>>=◌, ◌>>◌}
use brain.Base.Text.{
  ◌⧺◌, strip_suffix, trim_end_matches, trim_start_matches, eq_ignore_ascii_case, ascii_lowercase_is,
}
use brain.Domain.{Headers, ProxyError, bad_gateway, McpProxyRequest, McpProxyResponse, McpProxyPort}
use brain.Domain.Decimal.{decimal}
use brain.Json.{
  Value, string, obj, Codec, Fields, object, lookup, insert, get, as_str, as_object, as_array,
  update_key, update_object, update_array,
}
use brain.Plugin.Uri.{
  prefix_resource_uri_for_container, strip_name, strip_resource_uri_prefix_for_container,
}
use brain.Plugin.Schema.{
  RemoteMcpContainerToolSchema, RemoteMcpContainerResourceSchema, prefix_tool_schemas,
  prefix_resource_schemas,
}
use brain.Proxy.{query_part}

pub record RemoteMcpContainerClient (W B : Type 0) : Type 0 where
  pub container_name : String
  pub mcp_url : String
  pub bearer_token : Option String
  pub proxy : McpProxyPort W B
  pub tool_schemas : List RemoteMcpContainerToolSchema
  pub resource_schemas : List RemoteMcpContainerResourceSchema

unfoldable pub strip_content_length : Headers → Headers
unfolding eq_ignore_ascii_case
strip_content_length =
    keep (λ (header : String × String). not (eq_ignore_ascii_case header.0 "content-length"))

abbrev pub static_asset_strip_headers : List String
static_asset_strip_headers =
    "authorization" ∷ "connection" ∷ "content-length" ∷ "host" ∷ "keep-alive" ∷ "proxy-authenticate"
    ∷ "proxy-authorization" ∷ "te" ∷ "trailer" ∷ "trailers" ∷ "transfer-encoding" ∷ "upgrade" ∷ []

unfoldable pub filter_static_asset_request_headers : Headers → Headers
unfolding ascii_lowercase_is
filter_static_asset_request_headers = keep (λ (header : String × String).
    not (any (λ word. ascii_lowercase_is header.0 word) static_asset_strip_headers))

abbrev pub json_headers : Headers
json_headers =
    ("content-type", "application/json") ∷ ("accept", "application/json, text/event-stream") ∷ []

abbrev pub bearer_headers : Option String → Headers
bearer_headers none = []
bearer_headers (some token) = ("authorization", "Bearer " ⧺ token) ∷ []

-- A request whose `params` is an object gets the entry `key`; for others the error `missing`.
abbrev pub with_param : String → String → String → Value → Result ProxyError Value
with_param missing key value request = ok_or (bad_gateway missing) (
    update_key "params" (update_object (λ params. some (insert key (string value) params))) request)

module _ {W B : Type 0} (client : RemoteMcpContainerClient W B) where
  unfoldable pub http_base_url : String
  unfolding strip_suffix trim_end_matches
  http_base_url = trim_end_matches b'/' (get_or (strip_suffix "/mcp" client.mcp_url) client.mcp_url)

  unfoldable pub prefixed_tool_schemas : List Value
  prefixed_tool_schemas =
      map (λ (tool : RemoteMcpContainerToolSchema). tool.schema) client.tool_schemas

  unfoldable pub prefixed_resource_schemas : List Value
  prefixed_resource_schemas =
      map (λ (resource : RemoteMcpContainerResourceSchema). resource.schema) client.resource_schemas

  unfoldable pub strip_prefix : String → Option String
  unfolding strip_name
  strip_prefix tool_name = strip_name client.container_name tool_name

  unfoldable pub has_tool : String → Bool
  has_tool name =
      any (λ (schema : RemoteMcpContainerToolSchema). schema.original_name == name)
        client.tool_schemas

  unfoldable pub strip_resource_uri_prefix : String → Option String
  unfolding strip_resource_uri_prefix_for_container
  strip_resource_uri_prefix uri = strip_resource_uri_prefix_for_container client.container_name uri

  unfoldable pub has_resource : String → Bool
  has_resource uri =
      any (λ (schema : RemoteMcpContainerResourceSchema). schema.original_uri == uri)
        client.resource_schemas

  unfoldable pub forward_json : B → Io W ProxyError (McpProxyResponse B)
  forward_json body = client.proxy (record {
    method = "POST";
    url = client.mcp_url;
    headers = json_headers ++ bearer_headers client.bearer_token;
    body = body;
  })

  unfoldable pub build_http_url : String → Option String → String
  unfolding http_base_url trim_start_matches
  build_http_url path query = http_base_url ⧺ "/" ⧺ trim_start_matches b'/' path ⧺ query_part query

  unfoldable pub require_success : String → McpProxyResponse B → Result ProxyError Unit
  unfolding decimal
  require_success operation response =
      if leb 200 response.status && ltb response.status 300
      then ok tt
      else err (
          bad_gateway (
            "Plugin MCP Container '"
            ⧺ client.container_name
            ⧺ "' "
            ⧺ operation
            ⧺ " failed with HTTP "
            ⧺ decimal response.status))
