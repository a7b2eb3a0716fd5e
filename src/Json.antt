-- ===== src/Json.antt =====
-- `serde_json::Value` and its codec, as the sources of crates/core use them. An object is the list
-- of its fields; the order in which a field is stored or written is not part of the model.
pub mod Laws
use brain.Base.{
  ℕ, String, Option, none, some, Bool, true, false, List, [], ◌∷◌, ◌++◌, ◌==◌, if◌then◌else◌,
}
use brain.Base.Result.{Result, to_option}
use brain.Base.Optional
use brain.Base.Optional.{and_then, is_some}

-- An integer from 0, -(n + 1), or a float by the bits of an IEEE double.
pub data Number : Type 0 where
  pos_int neg_int float : ℕ → Number

mutual
  pub data Value : Type 0 where
    null : Value
    bool : Bool → Value
    number : Number → Value
    string : String → Value
    array : Items → Value
    object : Fields → Value

  pub data Items : Type 0 where
    nil : Items
    cons : Value → Items → Items

  pub data Fields : Type 0 where
    end : Fields
    field : String → Value → Fields → Fields

abbrev pub to_list : Items → List Value
to_list nil = []
to_list (cons v vs) = v ∷ to_list vs

abbrev pub of_list : List Value → Items
of_list [] = nil
of_list (v ∷ vs) = cons v (of_list vs)

-- `json!({ … })` and `json!([ … ])`
abbrev pub fields : List (String × Value) → Fields
fields [] = end
fields ((k, v) ∷ rest) = field k v (fields rest)

abbrev pub obj : List (String × Value) → Value
obj rest = object (fields rest)

abbrev pub arr : List Value → Value
arr vs = array (of_list vs)

-- `Map::get`, `Map::insert`, `Map::contains_key`
unfoldable pub lookup : String → Fields → Option Value
lookup k end = none
lookup k (field j v fs) = if j == k then some v else lookup k fs

unfoldable pub insert : String → Value → Fields → Fields
insert k v end = field k v end
insert k v (field j w fs) = if j == k then field k v fs else field j w (insert k v fs)

abbrev pub contains_key : String → Fields → Bool
contains_key k fs = is_some (lookup k fs)

abbrev pub as_object : Value → Option Fields
as_object (object fs) = some fs
as_object _ = none

abbrev pub as_array : Value → Option (List Value)
as_array (array vs) = some (to_list vs)
as_array _ = none

abbrev pub as_str : Value → Option String
as_str (string s) = some s
as_str _ = none

-- `Value::get` of a key: `None` but for an object that has the key.
abbrev pub get : String → Value → Option Value
get k v = and_then (as_object v) (lookup k)

-- A write through `get_mut` and `as_object_mut`, `as_array_mut`: `f` changes the part that is
-- reached, and the result is the whole value; `None` where the path is missing or `f` gives up.
abbrev pub update_object : (Fields → Option Fields) → Value → Option Value
update_object f v = Optional.map object (and_then (as_object v) f)

abbrev pub update_array : (List Value → Option (List Value)) → Value → Option Value
update_array f v = Optional.map arr (and_then (as_array v) f)

abbrev pub update_key : String → (Value → Option Value) → Value → Option Value
update_key k f v =
    and_then (as_object v)
      λ fs. Optional.map (λ w. object (insert k w fs)) (and_then (lookup k fs) f)

-- `from_slice` and `to_vec` of the serde_json crate over bytes of type `B`, an error by its message;
-- with the two byte strings that the sources write out, `b""` and `b"{}"`.
pub record Codec (B : Type 0) : Type 0 where
  pub from_slice : B → Result String Value
  pub to_vec : Value → Result String B
  pub empty : B
  pub empty_object : B

-- `from_slice(…).ok()` and `to_vec(…).ok()`
abbrev pub parsed : {B : Type 0} → Codec B → B → Option Value
parsed codec bytes = to_option (codec.from_slice bytes)

abbrev pub written : {B : Type 0} → Codec B → Value → Option B
written codec value = to_option (codec.to_vec value)

-- `.get("result").and_then(|result| result.get(key)).and_then(Value::as_array)`
abbrev pub result_array : String → Value → Option (List Value)
result_array key body = and_then (and_then (get "result" body) (get key)) as_array
