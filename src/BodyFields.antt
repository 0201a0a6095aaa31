-- ===== src/BodyFields.antt =====
-- src/body_field.rs: the fields that a backend's configuration sets in a request's body. The crate
-- serde_json is the argument `j`.
pub mod Paths
mod Tests
use anthroxy.Prelude.{Option, none, some, List, [], ◌∷◌, Text}
use anthroxy.Json.{Json}

pub record BodyField (Value : Type 0) : Type 0 where
  pub path : List Text
  pub value : Value

module _ (j : Json) where
  open j use {Value, Object, as_object, get, insert, object}

  -- What a step leads into: an object that is there, or else a new one.
  unfoldable pub step_into : Object → Text → Object
  step_into o key = elim (get o key) [
    | none ↦ j.empty
    | some v ↦ elim (as_object v) [ none ↦ j.empty | some inner ↦ inner ]
  ]

  unfoldable pub set : Object → List Text → Value → Object
  unfolding step_into
  set o [] v = o
  set o (key ∷ []) v = insert key v o
  set o (key ∷ next ∷ rest) v = insert key (object (set (step_into o key) (next ∷ rest) v)) o

  unfoldable pub set_all : Object → List (BodyField Value) → Object
  unfolding set
  set_all o [] = o
  set_all o (f ∷ fields) = set_all (set o f.path f.value) fields
