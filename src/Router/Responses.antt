-- ===== src/Router/Responses.antt =====
-- The free functions of mcp_router.rs that write a JSON-RPC answer.
use brain.Base.{String, [], ◌∷◌, map}
use brain.Base.Optional.{get_or}
use brain.Base.Result
use brain.Base.Result.{Result, ok, err, unwrap_or}
use brain.Base.Text.{◌⧺◌}
use brain.Domain.{ProxyError, bad_gateway, display, McpProxyResponse}
use brain.Json.{
  Value, null, bool, number, neg_int, string, object, obj, arr, Codec, fields, insert, get,
}
use brain.Registry.{
  NativeMcpToolOutput, NativeMcpToolTextContent, NativeMcpToolError, NativeMcpResourceContent,
  text_content, blob_content, NativeMcpResourceError, display_tool_error, display_resource_error,
}

-- `request.get("id").cloned().unwrap_or(Value::Null)`
abbrev pub request_id : Value → Value
request_id request = get_or (get "id" request) null

-- The JSON-RPC codes of the errors; the argument of `neg_int` is one less than the magnitude.
abbrev pub method_not_found : Value
method_not_found = number (neg_int 32600)

abbrev pub invalid_params : Value
invalid_params = number (neg_int 32601)

abbrev pub internal_error : Value
internal_error = number (neg_int 32602)

abbrev pub result_body : Value → Value → Value
result_body request result =
    obj (("jsonrpc", string "2.0") ∷ ("id", request_id request) ∷ ("result", result) ∷ [])

abbrev pub error_body : Value → Value → String → Value
error_body request code message = obj (
    ("jsonrpc", string "2.0")
    ∷ ("id", request_id request)
    ∷ ("error", obj (("code", code) ∷ ("message", string message) ∷ []))
    ∷ [])

unfoldable pub tool_content : NativeMcpToolTextContent → Value
tool_content block = obj (("type", string "text") ∷ ("text", string block.text) ∷ [])

unfoldable pub tool_result : NativeMcpToolOutput → Value
unfolding tool_content
tool_result output =
    obj
      (("content", arr (map tool_content output.content)) ∷ ("isError", bool output.is_error) ∷ [])

unfoldable pub resource_content : String → String → NativeMcpResourceContent → Value
unfolding insert
resource_content uri mime_type (text_content text) = object (
    insert "text" (string text)
      (fields (("uri", string uri) ∷ ("mimeType", string mime_type) ∷ [])))
resource_content uri mime_type (blob_content blob) = object (
    insert "blob" (string blob)
      (fields (("uri", string uri) ∷ ("mimeType", string mime_type) ∷ [])))

unfoldable pub native_tool_error_to_proxy_error : NativeMcpToolError → ProxyError
unfolding display_tool_error
native_tool_error_to_proxy_error error =
    bad_gateway ("native MCP tool initialization failed: " ⧺ display_tool_error error)

module _ {B : Type 0} (codec : Codec B) where
  abbrev pub json_response : B → McpProxyResponse B
  json_response body = record {
    status = 200;
    headers = ("content-type", "application/json") ∷ [];
    body = body;
  }

  unfoldable pub native_tool_response :
      Value → NativeMcpToolOutput → Result ProxyError (McpProxyResponse B)
  unfolding tool_result
  native_tool_response request output =
      Result.◌>>=◌
        (Result.map_err (λ error. bad_gateway ("native MCP response error: " ⧺ error))
          (codec.to_vec (result_body request (tool_result output))))
        (λ body. ok (json_response body))

  unfoldable pub native_resource_response :
      Value → String → String → NativeMcpResourceContent → Result ProxyError (McpProxyResponse B)
  unfolding resource_content
  native_resource_response request uri mime_type content =
      Result.◌>>=◌
        (Result.map_err (λ error. bad_gateway ("native MCP resource response error: " ⧺ error))
          (codec.to_vec (
            result_body request
              (obj (("contents", arr (resource_content uri mime_type content ∷ [])) ∷ [])))))
        (λ body. ok (json_response body))

  -- `to_vec(&body).unwrap_or_else(|_| b"{}".to_vec())`
  abbrev pub error_response : Value → Value → String → McpProxyResponse B
  error_response request code message =
      json_response (unwrap_or codec.empty_object (codec.to_vec (error_body request code message)))

  unfoldable pub tool_not_found_response : Value → String → McpProxyResponse B
  tool_not_found_response request tool_name =
      error_response request method_not_found ("Tool not found: " ⧺ tool_name)

  unfoldable pub resource_not_found_response : Value → String → McpProxyResponse B
  resource_not_found_response request resource_uri =
      error_response request invalid_params ("Resource not found: " ⧺ resource_uri)

  unfoldable pub native_resource_error_response :
      Value → String → NativeMcpResourceError → McpProxyResponse B
  unfolding display_resource_error
  native_resource_error_response request resource_uri error =
      error_response request internal_error
        ("Native resource error reading " ⧺ resource_uri ⧺ ": " ⧺ display_resource_error error)

  unfoldable pub plugin_transport_error_response : Value → String → ProxyError → McpProxyResponse B
  unfolding display
  plugin_transport_error_response request tool_name error =
      error_response request internal_error
        ("Plugin container error calling " ⧺ tool_name ⧺ ": " ⧺ display error)

  unfoldable pub plugin_resource_transport_error_response :
      Value → String → ProxyError → McpProxyResponse B
  unfolding display
  plugin_resource_transport_error_response request resource_uri error =
      error_response request internal_error
        ("Plugin container error reading " ⧺ resource_uri ⧺ ": " ⧺ display error)
