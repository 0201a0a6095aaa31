-- ===== src/Json.antt =====
-- What the program uses of serde_json: a value type with the accessors of `Value` and `Map`, the
-- reader and the printer. The crate is not modelled; it is an argument of what uses it.
pub mod Sample
pub mod Tree
use anthroxy.Prelude.{
  ℕ, ◌<◌, ◌≡◌, Bool, Text, List, [], ◌∷◌, Option, none, some, Result, if◌then◌else◌, text_eq, All,
}

pub record Json : Type 1 where
  pub Value : Type 0
  -- `Map<String, Value>`
  pub Object : Type 0
  -- `serde_json::from_slice`, with the text of its error.
  pub from_slice : Text → Result Text Value
  -- `Value::as_object`, `as_array`, `as_str`, `as_u64`, `is_null`
  pub as_object : Value → Option Object
  pub as_array : Value → Option (List Value)
  pub as_str : Value → Option Text
  pub as_u64 : Value → Option ℕ
  pub is_null : Value → Bool
  pub as_bool : Value → Option Bool
  -- `f64`, and `Value::as_f64`
  pub Float : Type 0
  pub as_f64 : Value → Option Float
  -- `Map::get`
  pub get : Object → Text → Option Value
  -- `Map::values`
  pub values : Object → List Value
  -- `Map::new` and `Map::insert`
  pub empty : Object
  pub insert : Text → Value → Object → Object
  -- What `json!` makes of an object, an array, a string, a `u64`, an `f64` and a `bool`.
  pub object : Object → Value
  pub array : List Value → Value
  pub string : Text → Value
  pub number : ℕ → Value
  pub float : Float → Value
  pub boolean : Bool → Value
  -- How many arrays and objects stand in one another, a value being finite.
  pub depth : Value → ℕ
  -- `to_string`
  pub to_string : Value → Text

module _ (j : Json) where
  open j use {Value, Object, as_object, get, insert}

  -- `and_then` on what a field holds.
  abbrev pub field {ℓ} : {A : Type ℓ} → (Value → Option A) → Object → Text → Option A
  field read o key = elim (get o key) [ none ↦ none | some v ↦ read v ]

  -- `Value::get`, which is `None` on what is no object.
  abbrev pub value_get : Value → Text → Option Value
  value_get v key = elim (as_object v) [ none ↦ none | some o ↦ get o key ]

  abbrev pub value_field {ℓ} : {A : Type ℓ} → (Value → Option A) → Value → Text → Option A
  value_field read v key = elim (value_get v key) [ none ↦ none | some w ↦ read w ]

  -- `insert` of a field that may be left out.
  abbrev pub insert_some : Text → Option Value → Object → Object
  insert_some key none o = o
  insert_some key (some v) o = insert key v o

  -- `json!` of an object with these fields.
  abbrev pub with_fields : List (Text × Value) → Object → Object
  with_fields [] o = o
  with_fields ((key, v) ∷ fields) o = with_fields fields (insert key v o)

  abbrev pub json_object : List (Text × Value) → Value
  json_object fields = j.object (with_fields fields j.empty)

-- What the documentation of the crate says of these operations.
pub record IsLawful (j : Json) : Type 0 where
  pub get-empty : (k : Text) → j.get j.empty k ≡ none
  pub get-insert :
      (k n : Text) (v : j.Value) (o : j.Object)
      → j.get (j.insert k v o) n ≡ (if text_eq k n then some v else j.get o n)
  pub as_object-object : (o : j.Object) → j.as_object (j.object o) ≡ some o
  pub as_array-array : (vs : List j.Value) → j.as_array (j.array vs) ≡ some vs
  pub as_str-string : (t : Text) → j.as_str (j.string t) ≡ some t
  -- The items of an array in a field are less deep than what has the field.
  pub depth-items :
      (v w : j.Value) (k : Text) (items : List j.Value)
      → value_get j v k ≡ some w
      → j.as_array w ≡ some items
      → All (λ b. j.depth b < j.depth v) items
