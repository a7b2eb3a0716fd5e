-- ===== src/Json/Laws.antt =====
-- The laws of objects and arrays.
use brain.Base.{
  String, ◌≡◌, refl, ap, none, some, ◌⊎◌, inl, inr, Option-cases, List, [], ◌∷◌, arith, ◌==◌,
  eq_iff, if◌then◌else◌,
}
use brain.Base.Optional.{and_then}
use brain.Base.Result.{ok}
use brain.Json.{
  Value, null, object, array, Items, nil, cons, get, as_array, result_array, as_object, Fields, end,
  field, lookup, insert, to_list, of_list, Codec,
}

pub lookup-insert :
    (k j : String) (v : Value) (fs : Fields)
    → lookup j (insert k v fs) ≡ (if k == j then some v else lookup j fs)
unfolding lookup insert
lookup-insert k j v end = refl
lookup-insert k j v (field i w fs) =
    ground (arith, eq_iff k j, eq_iff i k, eq_iff i j, lookup-insert k j v fs)

pub to_list-of_list : (vs : List Value) → to_list (of_list vs) ≡ vs
to_list-of_list [] = refl
to_list-of_list (v ∷ vs) = ap (λ l. v ∷ l) (to_list-of_list vs)

pub of_list-to_list : (vs : Items) → of_list (to_list vs) ≡ vs
of_list-to_list nil = refl
of_list-to_list (cons v vs) = ap (λ l. cons v l) (of_list-to_list vs)

-- What the crate documents of a `Value`, whose keys are texts: it can always be written, and what is
-- written is read back.
pub record IsLawful {B : Type 0} (codec : Codec B) : Type 0 where
  pub round :
      (v : Value) → (bytes : B) × (codec.to_vec v ≡ ok bytes) × (codec.from_slice bytes ≡ ok v)

pub object-cases : (v : Value) → (as_object v ≡ none) ⊎ ((fs : Fields) × (v ≡ object fs))
object-cases (object fs) = inr (fs, refl)
object-cases null = inl refl
object-cases _ = inl refl

-- The parts that a value with an array at `result.<key>` has.
pub record HasResult (key : String) (body : Value) (values : List Value) : Type 0 where
  pub whole : Fields
  pub result : Fields
  pub items : Items
  pub body_is : body ≡ object whole
  pub result_at : lookup "result" whole ≡ some (object result)
  pub key_at : lookup key result ≡ some (array items)
  pub values_are : values ≡ to_list items

result_at-HasResult :
    (key : String) (whole : Fields) (result : Value) {values : List Value}
    → lookup "result" whole ≡ some result
    → and_then (get key result) as_array ≡ some values
    → HasResult key (object whole) values
result_at-HasResult key whole (object rs) {values} at h = elim (Option-cases (lookup key rs)) [
  | inl missing ↦ absurd (ground arith)
  | inr (v, found) ↦ go v found (ground arith)
]
  where
    go :
        (v : Value)
        → lookup key rs ≡ some v
        → as_array v ≡ some values
        → HasResult key (object whole) values
    go (array items) found e = record {
      whole = whole;
      result = rs;
      items = items;
      body_is = refl;
      result_at = at;
      key_at = found;
      values_are = ground arith;
    }
    go null found e = absurd (ground arith)
    go _ found e = absurd (ground arith)
result_at-HasResult key whole null at h = absurd (ground arith)
result_at-HasResult key whole _ at h = absurd (ground arith)

pub result_array-HasResult :
    (key : String) (body : Value) {values : List Value}
    → result_array key body ≡ some values
    → HasResult key body values
result_array-HasResult key (object fs) h = elim (Option-cases (lookup "result" fs)) [
  | inl missing ↦ absurd (ground arith)
  | inr (v, found) ↦ result_at-HasResult key fs v found (ground arith)
]
result_array-HasResult key null h = absurd (ground arith)
result_array-HasResult key _ h = absurd (ground arith)
