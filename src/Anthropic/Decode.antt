-- ===== src/Anthropic/Decode.antt =====
-- src/anthropic/decode.rs: a Messages request decoded to a chat request. The crate serde_json is the
-- argument `j`, `text::short` the argument `short`.
pub mod Fields
pub mod Parts
pub mod References
pub mod Blocks
pub mod Tools
pub mod Allowed
pub mod Calls
pub mod Documents
pub mod Functions
pub mod Depth
pub mod Samples
mod Tests
use anthroxy.Prelude.{
  ℕ, suc, Bool, true, false, not, ◌||◌, Option, none, some, List, [], ◌∷◌, ◌++◌, if◌then◌else◌,
  is_empty, any, filter, Text, ascii, text_eq, join, Result, ok, err, map_ok, ◌>>=◌,
}
use anthroxy.Json.{Json, value_get, value_field, field}
use anthroxy.Ir.Requests.{
  Role, ToolChoice, choose_auto, choose_required, choose_none, choose_tool, Part, text_of_part,
  RequestMessage, Tool, Request,
}
use anthroxy.Anthropic.Decode.Fields.{
  DecodeError, not_an_object, wrong_field, unknown_role, incomplete_tool, wrong_role, ok_or,
  unwrap_or, field_str, optional_array, optional,
}
use anthroxy.Anthropic.Decode.Parts.{separator, kind, role_of, find_wrong}
use anthroxy.Anthropic.Decode.Blocks.{decode_block}
use anthroxy.Anthropic.Decode.Tools.{traverse, decode_tools}

-- `filter(|text| !text.is_empty())`
abbrev pub nonempty : Text → Option Text
nonempty [] = none
nonempty (c ∷ t) = some (c ∷ t)

module _ (j : Json) (short : Text → Text) where
  open j use {Value, Object, from_slice, as_object, as_array, as_str, as_bool, as_u64, as_f64, get}

  unfoldable pub decode_system : Object → Result DecodeError (Option Text)
  unfolding traverse join
  decode_system root =
      let blocks = optional_array j root (ascii "system") >>= λ items.
      map_ok (λ texts. nonempty (join separator texts))
        (traverse (λ b. field_str j b (ascii "text")) items) in
      elim (field j as_str root (ascii "system")) [ some t ↦ ok (nonempty t) | none ↦ blocks ]

  -- `root.get("tool_choice")`, not null.
  unfoldable pub choice_of : Object → Option Value
  choice_of root = elim (get root (ascii "tool_choice")) [
    | none ↦ none
    | some c ↦ if j.is_null c then none else some c
  ]

  unfoldable pub decode_choice : Value → Result DecodeError ToolChoice
  decode_choice choice = field_str j choice (ascii "type") >>= λ of_type.
      if text_eq of_type (ascii "auto")
      then ok choose_auto
      else if text_eq of_type (ascii "any")
      then ok choose_required
      else if text_eq of_type (ascii "none")
      then ok choose_none
      else if text_eq of_type (ascii "tool")
      then map_ok (λ n. choose_tool n) (field_str j choice (ascii "name"))
      else err (wrong_field (ascii "tool_choice.type"))

  unfoldable pub decode_tool_choice : Option Value → Result DecodeError (Option ToolChoice)
  unfolding decode_choice
  decode_tool_choice none = ok none
  decode_tool_choice (some c) = map_ok (λ t. some t) (decode_choice c)

  unfoldable pub decode_effort : Object → Option Text
  decode_effort root =
      elim (field j (λ o. value_field j as_str o (ascii "effort")) root (ascii "output_config")) [
        | none ↦ none
        | some effort ↦ if text_eq effort (ascii "max") then some (ascii "high") else some effort
      ]

  module _ (tools : List (Tool Value j.Float)) where
    -- The blocks of a message up to the first error, without those that are dropped.
    unfoldable pub decode_blocks :
        ℕ → List Value → List Text → Result DecodeError (List (Part Value j.Float) × List Text)
    unfolding decode_block
    decode_blocks index [] spelled = ok ([], spelled)
    decode_blocks index (b ∷ blocks) spelled = do
      d ← decode_block j short tools index (suc (j.depth b)) b spelled
      rest ← decode_blocks index blocks d.1
      ok (elim d.0 [ none ↦ rest.0 | some p ↦ p ∷ rest.0 ], rest.1)

    unfoldable pub decode_content :
        ℕ → Option Value → List Text → Result DecodeError (List (Part Value j.Float) × List Text)
    unfolding decode_blocks
    decode_content index none spelled = err (wrong_field (ascii "content"))
    decode_content index (some v) spelled = elim (as_str v) [
      | some t ↦ ok (text_of_part t ∷ [], spelled)
      | none ↦ elim (as_array v) [
        | none ↦ err (wrong_field (ascii "content"))
        | some blocks ↦ decode_blocks index blocks spelled
      ]
    ]

    unfoldable pub check_parts :
        ℕ → Text → Role → List (Part Value j.Float) → Result DecodeError (List (Part Value j.Float))
    unfolding find_wrong
    check_parts index role_name role parts = elim (find_wrong Value j.Float role parts) [
      | none ↦ ok parts
      | some p ↦ err (wrong_role index (kind Value j.Float p) role_name)
    ]

    unfoldable pub decode_message :
        ℕ → Value → List Text → Result DecodeError (RequestMessage Value j.Float × List Text)
    unfolding decode_content check_parts role_of
    decode_message index message spelled = do
      role_name ← field_str j message (ascii "role")
      role ← ok_or (unknown_role index (short role_name)) (role_of role_name)
      d ← decode_content index (value_get j message (ascii "content")) spelled
      parts ← check_parts index role_name role d.0
      ok (record { role = role; parts = parts }, d.1)

    unfoldable pub decode_messages :
        ℕ → List Value → List Text → Result DecodeError (List (RequestMessage Value j.Float))
    unfolding decode_message
    decode_messages index [] spelled = ok []
    decode_messages index (m ∷ messages) spelled = do
      d ← decode_message index m spelled
      rest ← decode_messages (suc index) messages d.1
      ok (d.0 ∷ rest)

  -- The fields that are decoded after the messages.
  unfoldable pub decode_fields :
      Object
      → Text
      → List (Tool Value j.Float)
      → List (RequestMessage Value j.Float)
      → Result DecodeError (Request Value j.Float)
  unfolding traverse decode_system decode_tool_choice decode_effort choice_of
  decode_fields root model tools messages = do
    system_prompt ← decode_system root
    tool_choice ← decode_tool_choice (choice_of root)
    stops ← optional_array j root (ascii "stop_sequences")
    stop ← traverse (λ s. ok_or (wrong_field (ascii "stop_sequences")) (as_str s)) stops
    max_tokens ← optional j as_u64 root (ascii "max_tokens")
    temperature ← optional j as_f64 root (ascii "temperature")
    top_p ← optional j as_f64 root (ascii "top_p")
    stream ← optional j as_bool root (ascii "stream")
    ok (record {
      model = model;
      system_prompt = system_prompt;
      messages = messages;
      tools = tools;
      tool_choice = tool_choice;
      max_tokens = max_tokens;
      temperature = temperature;
      top_p = top_p;
      stop = stop;
      stream = unwrap_or false stream;
      user_of = field j (λ m. value_field j as_str m (ascii "user_id")) root (ascii "metadata");
      reasoning_effort = decode_effort root;
      disable_parallel_tool_calls = unwrap_or false (elim (choice_of root) [
        | none ↦ none
        | some c ↦ value_field j as_bool c (ascii "disable_parallel_tool_use")
      ]);
    })

  unfoldable pub decode_root : Object → Result DecodeError (Request Value j.Float)
  unfolding decode_tools decode_messages decode_fields
  decode_root root = do
    model ← ok_or (wrong_field (ascii "model")) (field j as_str root (ascii "model"))
    raw_messages ← ok_or (wrong_field (ascii "messages")) (field j as_array root (ascii "messages"))
    raw_tools ← optional_array j root (ascii "tools")
    tools ← decode_tools j short raw_tools raw_messages
    messages ← decode_messages tools 0 raw_messages []
    decode_fields root model tools messages

  unfoldable pub decode : Text → Result DecodeError (Request Value j.Float)
  unfolding decode_root
  decode body = elim (from_slice body) [
    | err why ↦ err not_an_object
    | ok root ↦ ok_or not_an_object (as_object root) >>= decode_root
  ]
