-- ===== src/Router/Augment/Laws.antt =====
-- What the router adds to an upstream answer, and what it leaves alone.
use mathlib.Core.List.{append-nil}
use brain.Base.{
  ◌≡◌, ◌⊎◌, refl, inl, inr, String, none, some, true, false, ◌&&◌, List, [], ◌∷◌, ◌++◌, ◌==◌, arith,
  eq_iff, eq_refl, is_empty, flat_map, Bool-cases, if◌then◌else◌,
}
use brain.Base.Optional.{and_then}
use brain.Base.Text.{eq_ignore_ascii_case, eq_ignore_ascii_case_congr}
use brain.Base.Result.{ok}
use brain.Domain.{Headers, McpProxyResponse}
use brain.Json.{Value, object, Fields, Codec, parsed, insert, get, result_array, arr}
use brain.Json.Laws.{
  lookup-insert, to_list-of_list, of_list-to_list, IsLawful, HasResult, result_array-HasResult,
}
use brain.Plugin.Client.{strip_content_length, prefixed_tool_schemas, prefixed_resource_schemas}
use brain.Proxy.Laws.{named}
use brain.Registry.{list_schemas, list_resource_schemas}
use brain.Router.Augment.{
  McpRouterUseCase, append_result_array, append_tool_schemas, append_resource_schemas,
  all_tool_schemas, all_resource_schemas, with_body,
}

strip_content_length-named :
    (headers : Headers) → named "content-length" (strip_content_length headers) ≡ []
unfolding strip_content_length
strip_content_length-named [] = refl
strip_content_length-named ((name, value) ∷ headers) =
    ground (arith, strip_content_length-named headers)

-- Every other header is left as it is.
strip_content_length-other :
    (word : String) (headers : Headers)
    → eq_ignore_ascii_case word "content-length" ≡ false
    → named word (strip_content_length headers) ≡ named word headers
unfolding strip_content_length
strip_content_length-other word [] h = refl
strip_content_length-other word ((name, value) ∷ headers) h = ground (
  arith,
  strip_content_length-other word headers,
  eq_ignore_ascii_case_congr name word "content-length",
)

-- An answer whose array at `result.<key>` is `values`, and that is otherwise as `response`, whose
-- body is `body`: same status, same other keys of the body and of its result, and the same headers
-- of every name but content-length, of which none is left unless nothing has changed.
pub record IsExtended {B : Type 0} (codec : Codec B) (key : String) (body : Value)
    (values : List Value) (response extended : McpProxyResponse B) : Type 0 where
  pub new_body : Value
  pub new_result : Value
  pub reads : parsed codec extended.body ≡ some new_body
  pub array_is : result_array key new_body ≡ some values
  pub keys : (k : String) → get k new_body ≡ (if "result" == k then some new_result else get k body)
  pub result_keys :
      (k : String)
      → get k new_result
        ≡ (if key == k then some (arr values) else and_then (get "result" body) (get k))
  pub status_same : extended.status ≡ response.status
  pub headers_same :
      (word : String)
      → (named word extended.headers ≡ named word response.headers)
        ⊎ (eq_ignore_ascii_case word "content-length" ≡ true)
  pub length_fits : (extended ≡ response) ⊎ (named "content-length" extended.headers ≡ [])

module _ {B : Type 0} (codec : Codec B) (response : McpProxyResponse B) (body : Value) where
  -- The extended body, written out from the parts of the old one.
  abbrev extended_body : String → List Value → Fields → Fields → Value
  extended_body key values whole result =
      object (insert "result" (object (insert key (arr values) result)) whole)

  with_body-IsExtended :
      (key : String) (values old : List Value) (h : HasResult key body old) (bytes : B)
      → codec.from_slice bytes ≡ ok (extended_body key values h.whole h.result)
      → IsExtended codec key body values response (with_body codec response bytes)
  unfolding with_body
  with_body-IsExtended key values old h bytes read =
      let result = insert key (arr values) h.result in
      record {
        new_body = extended_body key values h.whole h.result;
        new_result = object result;
        reads = rw read;
        array_is = rw (
          lookup-insert "result" "result" (object result) h.whole,
          lookup-insert key key (arr values) h.result,
          eq_refl key,
          to_list-of_list values,
        );
        keys = λ k. rw h.body_is (lookup-insert "result" k (object result) h.whole);
        result_keys = λ k. rw (h.body_is, h.result_at) (lookup-insert key k (arr values) h.result);
        status_same = refl;
        headers_same = λ word. elim (Bool-cases (eq_ignore_ascii_case word "content-length")) [
          | inl same ↦ inr same
          | inr other ↦ inl (strip_content_length-other word response.headers other)
        ];
        length_fits = inr (strip_content_length-named response.headers);
      }

  module _ (key : String) (additions : List Value) (values : List Value) where
    -- The additions stand behind the values that the answer has.
    pub append_result_array-IsExtended :
        IsLawful codec
        → parsed codec response.body ≡ some body
        → result_array key body ≡ some values
        → IsExtended codec key body
            (values ++ additions)
            response
            (append_result_array codec response key additions).0
    unfolding append_result_array
    append_result_array-IsExtended lawful at found =
        let h = result_array-HasResult key body found in
        let new = extended_body key (values ++ additions) h.whole h.result in
        let (bytes, written, read) = lawful.round new in
        let e : (append_result_array codec response key additions).0
            ≡ with_body codec response bytes =
          ground (arith, h.body_is, h.result_at, h.key_at) in
        rw e (with_body-IsExtended key (values ++ additions) values h bytes read)

  -- Nothing to add: the answer as it is.
  unchanged-IsExtended :
      (key : String) (values : List Value)
      → parsed codec response.body ≡ some body
      → result_array key body ≡ some values
      → IsExtended codec key body (values ++ []) response response
  unchanged-IsExtended key values at found =
      let h = result_array-HasResult key body found in
      record {
        new_body = body;
        new_result = object h.result;
        reads = at;
        array_is = rw append-nil found;
        keys = λ k. rw h.body_is (ground (arith, eq_iff "result" k, h.result_at));
        result_keys = λ k. rw append-nil (
            rw (h.body_is, h.result_at)
              (ground (arith, eq_iff key k, h.key_at, h.values_are, of_list-to_list h.items)));
        status_same = refl;
        headers_same = λ word. inl refl;
        length_fits = inl refl;
      }

-- An answer without such an array is passed on as it is.
pub append_result_array-unchanged :
    {B : Type 0} (codec : Codec B) (response : McpProxyResponse B) (key : String)
    (additions : List Value)
    → and_then (parsed codec response.body) (result_array key) ≡ none
    → append_result_array codec response key additions ≡ (response, none)
unfolding append_result_array
append_result_array-unchanged codec response key additions h = ground arith

both_empty : (xs ys : List Value) → (is_empty xs && is_empty ys) ≡ true → xs ++ ys ≡ []
both_empty [] [] h = refl
both_empty [] (y ∷ ys) h = cc
both_empty (x ∷ xs) ys h = cc

module _ {W B : Type 0} (codec : Codec B) (router : McpRouterUseCase W B)
    (response : McpProxyResponse B) (body : Value) (values : List Value) where
  -- The answer to tools/list: behind the upstream's tools stand the native tools and then those of
  -- the containers in their order. The status, every other key of the body and of its result, and the
  -- headers of every name but content-length are as they were; content-length is left out, unless
  -- there is nothing to add and the answer is as it was.
  pub append_tool_schemas-IsExtended :
      IsLawful codec
      → parsed codec response.body ≡ some body
      → result_array "tools" body ≡ some values
      → IsExtended codec "tools" body
          (values ++ all_tool_schemas codec router)
          response
          (append_tool_schemas codec router response)
  unfolding append_tool_schemas
  append_tool_schemas-IsExtended lawful at found =
      let native = list_schemas router.native_tools in
      let plugin = flat_map prefixed_tool_schemas router.plugin_containers in
      elim (Bool-cases (is_empty native && is_empty plugin)) [
        | inl bare ↦
            rw (bare, both_empty native plugin bare)
              (unchanged-IsExtended codec response body "tools" values at found)
        | inr more ↦ rw more (
            append_result_array-IsExtended codec response body "tools"
              (all_tool_schemas codec router) values lawful at found)
      ]

  -- The answer to resources/list: behind the upstream's resources stand the native ones and then
  -- those of the containers in their order, and the rest of the answer is as it was.
  append_resource_schemas-IsExtended :
      IsLawful codec
      → parsed codec response.body ≡ some body
      → result_array "resources" body ≡ some values
      → IsExtended codec "resources" body
          (values ++ all_resource_schemas codec router)
          response
          (append_resource_schemas codec router response)
  unfolding append_resource_schemas
  append_resource_schemas-IsExtended lawful at found =
      let native = list_resource_schemas router.native_tools in
      let plugin = flat_map prefixed_resource_schemas router.plugin_containers in
      elim (Bool-cases (is_empty native && is_empty plugin)) [
        | inl bare ↦
            rw (bare, both_empty native plugin bare)
              (unchanged-IsExtended codec response body "resources" values at found)
        | inr more ↦ rw more (
            append_result_array-IsExtended codec response body "resources"
              (all_resource_schemas codec router) values lawful at found)
      ]
