-- ===== src/Anthropic/Decode/Tools.antt =====
-- The tools of src/anthropic/decode.rs: which are sent, and the names that references carry.
use anthroxy.Prelude.{
  Bool, false, not, ◌||◌, none, some, List, [], ◌∷◌, ◌++◌, if◌then◌else◌, any, filter, Text, ascii,
  text_eq, Result, ok, map_ok, ◌>>=◌,
}
use anthroxy.Json.{Json, value_get, value_field}
use anthroxy.Ir.Requests.{Tool}
use anthroxy.Anthropic.Decode.Fields.{DecodeError, incomplete_tool, ok_or, unwrap_or, field_str}

-- `collect` of results, up to the first error.
unfoldable pub traverse {ℓ} :
    {A : Type ℓ} {B : Type 0} → (A → Result DecodeError B) → List A → Result DecodeError (List B)
traverse f [] = ok []
traverse f (a ∷ more) = f a >>= λ b. map_ok (λ bs. b ∷ bs) (traverse f more)

module _ (j : Json) where
  open j use {Value, as_array, as_str, as_bool}

  unfoldable pub deferred : Value → Bool
  deferred tool = unwrap_or false (value_field j as_bool tool (ascii "defer_loading"))

  unfoldable pub is_typed : Text → Value → Bool
  is_typed name v = elim (value_field j as_str v (ascii "type")) [
    | none ↦ false
    | some t ↦ text_eq t name
  ]

  -- The items of the array in a field; the others give none.
  abbrev pub items_in : Text → Value → List Value
  items_in key v = unwrap_or [] (value_field j as_array v key)

  -- The names that the references among the blocks of a tool result carry.
  unfoldable pub names_of : List Value → List Text
  unfolding is_typed
  names_of [] = []
  names_of (b ∷ blocks) =
      let rest = names_of blocks in
      if is_typed (ascii "tool_reference") b
      then elim (value_field j as_str b (ascii "tool_name")) [ none ↦ rest | some n ↦ n ∷ rest ]
      else rest

  unfoldable pub result_names : List Value → List Text
  unfolding names_of is_typed
  result_names [] = []
  result_names (b ∷ blocks) =
      let rest = result_names blocks in
      if is_typed (ascii "tool_result") b
      then names_of (items_in (ascii "content") b) ++ rest
      else rest

  unfoldable pub referenced_tools : List Value → List Text
  unfolding result_names
  referenced_tools [] = []
  referenced_tools (m ∷ messages) =
      result_names (items_in (ascii "content") m) ++ referenced_tools messages

  -- Whether a tool is sent: a deferred one only when a reference names it.
  unfoldable pub is_sent : List Text → Value → Bool
  unfolding deferred
  is_sent referenced tool = not (deferred tool) || elim (value_field j as_str tool (ascii "name")) [
    | none ↦ false
    | some name ↦ any (text_eq name) referenced
  ]

module _ (j : Json) (short : Text → Text) where
  open j use {Value, as_str}

  unfoldable pub decode_tool : Value → Result DecodeError (Tool Value j.Float)
  decode_tool tool = do
    name ← field_str j tool (ascii "name")
    parameters ←
        ok_or (incomplete_tool (short name) (ascii "input_schema"))
          (value_get j tool (ascii "input_schema"))
    ok (record {
      name = name;
      description = value_field j as_str tool (ascii "description");
      parameters = parameters;
    })

  unfoldable pub decode_tools :
      List Value → List Value → Result DecodeError (List (Tool Value j.Float))
  unfolding is_sent decode_tool traverse referenced_tools
  decode_tools raw_tools raw_messages =
      let referenced = if any (deferred j) raw_tools then referenced_tools j raw_messages else [] in
      traverse decode_tool (filter (is_sent j referenced) raw_tools)
