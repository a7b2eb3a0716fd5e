-- ===== src/Http/AssetLaws.antt =====
-- The requests that `plugin_asset_proxy` sends to a container.
use brain.Base.{
  ◌≡◌, refl, ap, ◌∙◌, ◌⊎◌, inl, inr, String, Option, none, some, List, [], ◌∷◌, ◌==◌, arith,
  Option-cases, find,
}
use brain.Base.Text.{
  ◌⧺◌, strip_prefix, strip_prefix_sound, split_once, split_once-append, text_eq_sound,
}
use brain.Json.{Codec}
use brain.Plugin.Requests.{get_http_path}
use brain.Http.Headers.{HeaderMap, header_pairs}
use brain.Http.Responses.{Response, HttpCrate}
use brain.Http.Assets.{
  PluginAssetMount, plugin_asset_path_parts, asset_answered, plugin_asset_proxy,
  plugin_asset_response_with_cors,
}

plugin_asset_path_parts_sound :
    (path mount rest : String)
    → plugin_asset_path_parts path ≡ some (mount, rest)
    → path ≡ "/" ⧺ mount ⧺ "/" ⧺ rest
unfolding plugin_asset_path_parts
plugin_asset_path_parts_sound path mount rest h = elim (Option-cases (strip_prefix "/" path)) [
  | inl missing ↦ absurd (ground arith)
  | inr (inner, slash) ↦ elim (Option-cases (split_once "/" inner)) [
    | inl missing ↦ absurd (ground arith)
    | inr ((a, b), parted) ↦
        let whole = split_once-append "/" inner parted in
        let e : a ≡ mount = ground arith in
        let e' : b ≡ rest = ground arith in
        rw (strip_prefix_sound "/" path slash, ← whole, e, e') refl
  ]
]

find-mount :
    {W B : Type 0} (mounts : List (PluginAssetMount W B)) (mount : String)
    (m : PluginAssetMount W B)
    → find (λ (m : PluginAssetMount W B). m.mount == mount) mounts ≡ some m
    → m.mount ≡ mount
find-mount [] mount m h = absurd (ground arith)
find-mount (first ∷ rest) mount m h =
    ground (arith, find-mount rest mount m, text_eq_sound first.mount mount)

module _ {W B : Type 0} (mounts : List (PluginAssetMount W B)) (http : HttpCrate) (codec : Codec B)
    (path : String) (query : Option String) (headers : HeaderMap) (w : W) where
  -- The request is for an asset of a mounted container: its path is the mount's, then a path under
  -- `mcp-use/`, which is what the container is asked for.
  pub record IsAsset (response : Response B × W) : Type 0 where
    pub asset_mount : PluginAssetMount W B
    pub rest : String
    pub mounted :
        find (λ (m : PluginAssetMount W B). m.mount == asset_mount.mount) mounts ≡ some asset_mount
    pub path_is : path ≡ "/" ⧺ asset_mount.mount ⧺ "/" ⧺ "mcp-use/" ⧺ rest
    pub answered :
        response
        ≡ asset_answered mounts http codec (
            get_http_path codec asset_mount.client
              ("mcp-use/" ⧺ rest)
              query
              (header_pairs headers)
              w)

  plugin_asset_proxy-from :
      (mount rest : String)
      → plugin_asset_path_parts path ≡ some (mount, rest)
      → ((plugin_asset_proxy mounts http codec path query headers w).0.status ≡ 404)
          × ((plugin_asset_proxy mounts http codec path query headers w).1 ≡ w)
        ⊎ IsAsset (plugin_asset_proxy mounts http codec path query headers w)
  unfolding plugin_asset_proxy plugin_asset_response_with_cors
  plugin_asset_proxy-from mount rest parts =
      elim (Option-cases (find (λ (m : PluginAssetMount W B). m.mount == mount) mounts)) [
        | inl missing ↦ inl (ground (arith, parts, missing), ground (arith, parts, missing))
        | inr (m, found) ↦ elim (Option-cases (strip_prefix "mcp-use/" rest)) [
          | inl outside ↦
              inl (ground (arith, parts, found, outside), ground (arith, parts, found, outside))
          | inr (inner, inside) ↦
              let same = find-mount mounts mount m found in
              let e = strip_prefix_sound "mcp-use/" rest inside in
              let whole = plugin_asset_path_parts_sound path mount rest parts in
              inr (record {
                asset_mount = m;
                rest = inner;
                mounted =
                    ap (λ s. find (λ (m : PluginAssetMount W B). m.mount == s) mounts) same ∙ found;
                path_is = rw (whole, e, same) refl;
                answered = rw (← e) (ground (arith, parts, found, inside));
              })
        ]
      ]

  plugin_asset_proxy-cases :
      (parts : Option (String × String))
      → plugin_asset_path_parts path ≡ parts
      → ((plugin_asset_proxy mounts http codec path query headers w).0.status ≡ 404)
          × ((plugin_asset_proxy mounts http codec path query headers w).1 ≡ w)
        ⊎ IsAsset (plugin_asset_proxy mounts http codec path query headers w)
  unfolding plugin_asset_proxy
  plugin_asset_proxy-cases none p = inl (ground (arith, p), ground (arith, p))
  plugin_asset_proxy-cases (some (mount, rest)) p = plugin_asset_proxy-from mount rest p

  -- A request for an asset is sent to a container only if its path is that of a mounted container
  -- followed by a path under `mcp-use/`, and then for that path; every other request is answered with
  -- status 404, and nothing is sent.
  pub plugin_asset_proxy-IsAsset :
      ((plugin_asset_proxy mounts http codec path query headers w).0.status ≡ 404)
        × ((plugin_asset_proxy mounts http codec path query headers w).1 ≡ w)
      ⊎ IsAsset (plugin_asset_proxy mounts http codec path query headers w)
  plugin_asset_proxy-IsAsset = plugin_asset_proxy-cases _ refl
