-- ===== src/Router/Augment/Patch.antt =====
-- The answer to `initialize` and its `resources` capability.
use brain.Base.{
  ◌≡◌, refl, inl, inr, String, none, some, true, false, ◌==◌, arith, eq_iff, Bool-cases,
  Option-cases, if◌then◌else◌, [],
}
use brain.Base.Optional.{get_or}
use brain.Domain.{McpProxyResponse}
use brain.Json.{
  object, obj, Fields, Codec, parsed, written, lookup, insert, contains_key, as_object,
}
use brain.Json.Laws.{lookup-insert, object-cases, IsLawful}
use brain.Router.Augment.{
  McpRouterUseCase, has_resources, patch_initialize_resources_capability, with_body,
}

-- An answer that declares `resources` among its capabilities and is otherwise as before; `whole` are
-- the fields of the body, `result` those of its result and `capabilities` those declared.
pub record IsPatched {B : Type 0} (codec : Codec B) (whole result capabilities : Fields)
    (response patched : McpProxyResponse B) : Type 0 where
  pub new_whole : Fields
  pub new_result : Fields
  pub new_capabilities : Fields
  pub reads : parsed codec patched.body ≡ some (object new_whole)
  pub keys :
      (k : String)
      → lookup k new_whole ≡ (if "result" == k then some (object new_result) else lookup k whole)
  pub result_keys :
      (k : String)
      → lookup k new_result
        ≡ (if "capabilities" == k then some (object new_capabilities) else lookup k result)
  pub declared : contains_key "resources" new_capabilities ≡ true
  pub capability_keys :
      (k : String)
      → lookup k new_capabilities ≡ (
          if "resources" == k
          then some (get_or (lookup "resources" capabilities) (obj []))
          else lookup k capabilities)
  pub status_same : patched.status ≡ response.status

module _ {W B : Type 0} (codec : Codec B) (router : McpRouterUseCase W B)
    (response : McpProxyResponse B) (whole result capabilities : Fields) (lawful : IsLawful codec)
    (reads : parsed codec response.body ≡ some (object whole)) (fine : lookup "error" whole ≡ none)
    (result_at : lookup "result" whole ≡ some (object result))
    (capabilities_at : as_object (get_or (lookup "capabilities" result) (obj []))
      ≡ some capabilities)
    (serves : has_resources codec router ≡ true) where
  capabilities_present :
      contains_key "resources" capabilities ≡ true
      → lookup "capabilities" result ≡ some (object capabilities)
  unfolding lookup
  capabilities_present h = elim (Option-cases (lookup "capabilities" result)) [
    | inl missing ↦ absurd (ground (arith, missing, capabilities_at, h))
    | inr (v, found) ↦ elim (object-cases v) [
      | inl plain ↦ absurd (ground (arith, found, plain, capabilities_at))
      | inr (fs, whole_is) ↦ ground (arith, found, whole_is, capabilities_at)
    ]
  ]

  declared_already :
      contains_key "resources" capabilities ≡ true
      → IsPatched codec whole result capabilities response
          (patch_initialize_resources_capability codec router response)
  unfolding patch_initialize_resources_capability lookup
  declared_already h =
      let e : patch_initialize_resources_capability codec router response ≡ response =
        ground (arith, reads, fine, result_at, capabilities_at, serves, h) in
      let at = capabilities_present h in
      rw e (record {
        new_whole = whole;
        new_result = result;
        new_capabilities = capabilities;
        reads = reads;
        keys = λ k. ground (arith, eq_iff "result" k, result_at);
        result_keys = λ k. ground (arith, eq_iff "capabilities" k, at);
        declared = h;
        capability_keys = λ k. ground (arith, eq_iff "resources" k, h);
        status_same = refl;
      })

  added :
      contains_key "resources" capabilities ≡ false
      → IsPatched codec whole result capabilities response
          (patch_initialize_resources_capability codec router response)
  unfolding patch_initialize_resources_capability with_body
  added h =
      let new_capabilities = insert "resources" (obj []) capabilities in
      let new_result = insert "capabilities" (object new_capabilities) result in
      let new_whole = insert "result" (object new_result) whole in
      let (bytes, written, read) = lawful.round (object new_whole) in
      let e : patch_initialize_resources_capability codec router response
          ≡ with_body codec response bytes =
        ground (arith, reads, fine, result_at, capabilities_at, serves, h) in
      rw e (record {
        new_whole = new_whole;
        new_result = new_result;
        new_capabilities = new_capabilities;
        reads = rw read;
        keys = λ k. lookup-insert "result" k (object new_result) whole;
        result_keys = λ k. lookup-insert "capabilities" k (object new_capabilities) result;
        declared = rw (lookup-insert "resources" "resources" (obj []) capabilities) refl;
        capability_keys = λ k. ground (arith, h, lookup-insert "resources" k (obj []) capabilities);
        status_same = refl;
      })

  -- If the gateway has resources, a readable answer to `initialize` that is no error declares the
  -- `resources` capability afterwards, with the value that it had or else an empty object, and is
  -- otherwise as it was: same status, capabilities, keys of the result and of the body.
  pub patch_initialize-IsPatched :
      IsPatched codec whole result capabilities response
        (patch_initialize_resources_capability codec router response)
  patch_initialize-IsPatched = elim (Bool-cases (contains_key "resources" capabilities)) [
    | inl there ↦ declared_already there
    | inr missing ↦ added missing
  ]
