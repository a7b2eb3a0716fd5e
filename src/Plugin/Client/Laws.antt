-- ===== src/Plugin/Client/Laws.antt =====
-- What a client that has cached its container's schemas accepts.
use brain.Base.{
  ◌≡◌, ◌⊎◌, inl, inr, some, true, ◌==◌, eq_refl, All, All-map, All-any_self, All-both, Bool-cases,
}
use brain.Base.Text.{is_empty}
use brain.Plugin.Uri.{ends_authority}
use brain.Plugin.Uri.Laws.{free}
use brain.Plugin.Uri.RoundTrip.{strip_name-append, strip-prefix_uri}
use brain.Plugin.Schema.{RemoteMcpContainerToolSchema, RemoteMcpContainerResourceSchema}
use brain.Plugin.Schema.Laws.{IsPrefixedTool, IsPrefixedResource}
use brain.Plugin.Client.{
  RemoteMcpContainerClient, strip_prefix, has_tool, strip_resource_uri_prefix, has_resource,
}

pub record IsCached {W B : Type 0} (client : RemoteMcpContainerClient W B) : Type 0 where
  pub tools : All (IsPrefixedTool client.container_name) client.tool_schemas
  pub resources : All (IsPrefixedResource client.container_name) client.resource_schemas

module _ {W B : Type 0} (client : RemoteMcpContainerClient W B) where
  -- Every tool that the client shows is one that it accepts: its shown name is stripped to the
  -- container's name for it, which is known. Only a tool with an empty name is left out.
  pub tools_IsAccepted :
      IsCached client
      → All
          (λ (t : RemoteMcpContainerToolSchema).
            (is_empty t.original_name ≡ true)
            ⊎ ((strip_prefix client t.prefixed_name ≡ some t.original_name)
                × (has_tool client t.original_name ≡ true)))
          client.tool_schemas
  unfolding strip_prefix has_tool
  tools_IsAccepted cached =
      All-map _ _ client.tool_schemas
        (λ t (known, tool). elim (Bool-cases (is_empty t.original_name)) [
          | inl bare ↦ inl bare
          | inr full ↦
              inr (
                rw tool.joined (strip_name-append client.container_name t.original_name full),
                known,
              )
        ])
        (All-both _ _ client.tool_schemas
          (All-any_self (λ (s t : RemoteMcpContainerToolSchema). s.original_name == t.original_name)
            client.tool_schemas (λ t. eq_refl t.original_name))
          cached.tools)

  -- Every resource that the client shows is one that it accepts: its shown URI is stripped to the
  -- container's URI for it, which is known. The container's name holds no `/`, `?` or `#`.
  pub resources_IsAccepted :
      IsCached client
      → free ends_authority client.container_name ≡ true
      → All
          (λ (r : RemoteMcpContainerResourceSchema).
            (strip_resource_uri_prefix client r.prefixed_uri ≡ some r.original_uri)
            × (has_resource client r.original_uri ≡ true))
          client.resource_schemas
  unfolding strip_resource_uri_prefix has_resource
  resources_IsAccepted cached clear =
      All-map _ _ client.resource_schemas
        (λ r (known, resource). (
          strip-prefix_uri client.container_name r.original_uri r.prefixed_uri clear
              resource.prefixed,
          known,
        ))
        (All-both _ _ client.resource_schemas
          (All-any_self
            (λ (s t : RemoteMcpContainerResourceSchema). s.original_uri == t.original_uri)
            client.resource_schemas (λ r. eq_refl r.original_uri))
          cached.resources)
