-- ===== src/Http/Tests.antt =====
-- The handlers at concrete requests.
use brain.Base.{◌≡◌, ◌⊎◌, none, some, List, [], ◌∷◌}
use brain.Http.Auth.{invalid_token}
use brain.Http.Assets.{PluginAssetMount, plugin_asset_proxy}
use brain.Http.AssetLaws.{IsAsset, plugin_asset_proxy-IsAsset}
use brain.Http.Handlers.{Request, AppState, handled_by_router, mcp_reverse_proxy, local_mcp_proxy}
use brain.Http.Headers.{HeaderMap}
use brain.Http.Laws.{
  IsAuthorized, IsAnswered, mcp_reverse_proxy-IsAuthorized, local_mcp_proxy-IsAuthorized,
}
use brain.Http.Responses.{HttpCrate, proxy_error_response}
use brain.Samples.{Bytes, Sent, codec, client, router, mcp_request}
use brain.Tokens.Issuer.{issue}
use brain.Tokens.Recovery.{no_faults}
use brain.Tokens.Samples.{formats, grant, call, store}
use brain.Tokens.Store.{SqliteTokenStore}

abbrev http : HttpCrate
http = record { from_u16 = λ status. some status; header = λ h. some h }

abbrev state : AppState Sent Bytes
state = record { proxy_mcp = router; local_mcp = some "local" }

abbrev headers : HeaderMap
headers = ("host", some "brain.example:443") ∷ ("authorization", some "Bearer tagt") ∷ []

abbrev request : Request Bytes
request = record {
  method = "POST";
  path = "/mcp";
  query = none;
  headers = headers;
  body = some (mcp_request "tools/call" "name" "notes__search");
}

-- A pair has been issued with the access token `tagt`.
abbrev issuer : SqliteTokenStore
issuer = (issue formats call grant store).1

mcp_reverse_proxy-IsAuthorized_example :
    ((mcp_reverse_proxy http codec state formats no_faults 0 request issuer []).0
      ≡ (some (proxy_error_response http invalid_token headers), []))
    ⊎ (IsAuthorized formats no_faults 0 headers issuer
        × ((mcp_reverse_proxy http codec state formats no_faults 0 request issuer []).0
            ≡ handled_by_router http codec state formats no_faults 0 request []))
mcp_reverse_proxy-IsAuthorized_example =
    mcp_reverse_proxy-IsAuthorized formats no_faults 0 http codec state request issuer []

local_mcp_proxy-IsAuthorized_example :
    IsAnswered http codec state request [] (local_mcp_proxy http codec state request [])
local_mcp_proxy-IsAuthorized_example = local_mcp_proxy-IsAuthorized http codec state request []

abbrev mounts : List (PluginAssetMount Sent Bytes)
mounts = record { mount = "notes"; client = client } ∷ []

plugin_asset_proxy-IsAsset_example :
    ((plugin_asset_proxy mounts http codec "/notes/mcp-use/app.js" none headers []).0.status ≡ 404)
      × ((plugin_asset_proxy mounts http codec "/notes/mcp-use/app.js" none headers []).1 ≡ [])
    ⊎ IsAsset mounts http codec "/notes/mcp-use/app.js" none headers []
        (plugin_asset_proxy mounts http codec "/notes/mcp-use/app.js" none headers [])
plugin_asset_proxy-IsAsset_example =
    plugin_asset_proxy-IsAsset mounts http codec "/notes/mcp-use/app.js" none headers []
