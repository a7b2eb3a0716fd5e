-- ===== src/Http/Assets.antt =====
-- The assets of the containers: `plugin_asset_proxy` and `plugin_asset_options`.
use brain.Base.{
  String, Option, none, some, Bool, not, ◌||◌, List, [], ◌∷◌, ◌++◌, ◌==◌, any, find, keep,
  if◌then◌else◌,
}
use brain.Base.Optional.{and_then, is_some}
use brain.Base.Result.{Result, ok, err}
use brain.Base.Text.{strip_prefix, split_once, is_empty}
use brain.Domain.{Headers, ProxyError, McpProxyResponse}
use brain.Json.{Codec}
use brain.Plugin.Client.{RemoteMcpContainerClient}
use brain.Plugin.Requests.{get_http_path}
use brain.Http.Headers.{HeaderMap, header_pairs}
use brain.Http.Responses.{Response, HttpCrate, status_response, passed_on}

pub record PluginAssetMount (W B : Type 0) : Type 0 where
  pub mount : String
  pub client : RemoteMcpContainerClient W B

-- `HeaderMap::insert`, in place of the values that the name has.
abbrev insert_header : String → String → Headers → Headers
insert_header name value headers =
    keep (λ (h : String × String). not (h.0 == name)) headers ++ (name, value) ∷ []

unfoldable pub apply_plugin_asset_cors : Headers → Headers
apply_plugin_asset_cors headers = insert_header "access-control-allow-headers" "*" (
    insert_header "access-control-allow-methods" "GET, OPTIONS"
      (insert_header "access-control-allow-origin" "*" headers))

unfoldable pub plugin_asset_path_parts : String → Option (String × String)
unfolding strip_prefix split_once
plugin_asset_path_parts path = and_then (strip_prefix "/" path) λ rest.
    and_then (split_once "/" rest)
      λ parts. if is_empty parts.0 || is_empty parts.1 then none else some parts

-- `path.starts_with("mcp-use/")`
abbrev pub is_asset_path : String → Bool
is_asset_path path = is_some (strip_prefix "mcp-use/" path)

module _ {B : Type 0} where
  unfoldable pub plugin_asset_response_with_cors : Response B → Response B
  unfolding apply_plugin_asset_cors
  plugin_asset_response_with_cors response = record response {
    headers = apply_plugin_asset_cors response.headers;
  }

module _ {W B : Type 0} (mounts : List (PluginAssetMount W B)) where
  unfoldable pub plugin_asset_options : String → Response B
  unfolding plugin_asset_path_parts plugin_asset_response_with_cors strip_prefix
  plugin_asset_options path = elim (plugin_asset_path_parts path) [
    | none ↦ status_response 404
    | some parts ↦
        if not (any (λ (m : PluginAssetMount W B). m.mount == parts.0) mounts)
          || not (is_asset_path parts.1)
        then plugin_asset_response_with_cors (status_response 404)
        else plugin_asset_response_with_cors (status_response 204)
  ]

  module _ (http : HttpCrate) (codec : Codec B) where
    abbrev asset_response : Result ProxyError (McpProxyResponse B) → Response B
    asset_response (ok upstream) = passed_on http upstream
    asset_response (err error) = status_response 502

    abbrev pub asset_answered : Result ProxyError (McpProxyResponse B) × W → Response B × W
    asset_answered (result, w) = (plugin_asset_response_with_cors (asset_response result), w)

    unfoldable pub plugin_asset_proxy : String → Option String → HeaderMap → W → Response B × W
    unfolding plugin_asset_path_parts plugin_asset_response_with_cors strip_prefix header_pairs
        get_http_path passed_on
    plugin_asset_proxy path query headers w = elim (plugin_asset_path_parts path) [
      | none ↦ (status_response 404, w)
      | some parts ↦ elim (find (λ (m : PluginAssetMount W B). m.mount == parts.0) mounts) [
        | none ↦ (plugin_asset_response_with_cors (status_response 404), w)
        | some asset_mount ↦
            if is_asset_path parts.1
            then asset_answered
                (get_http_path codec asset_mount.client parts.1 query (header_pairs headers) w)
            else (plugin_asset_response_with_cors (status_response 404), w)
      ]
    ]
