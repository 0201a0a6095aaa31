-- ===== src/OpenAi.antt =====
-- src/openai/common.rs: what a streamed chunk and a completed document have in common. The JSON
-- crate is the argument `j`.
pub mod Usages
pub mod Errors
pub mod Chunk
pub mod Requests
pub mod Response
use anthroxy.Prelude.{
  ℕ, ◌+◌, ◌<◌, ◌^◌, Bool, true, false, ◌&&◌, not, Option, none, some, List, [], ◌∷◌, ◌++◌,
  if◌then◌else◌, is_empty, ltb, Text, ascii, text_eq, Result, ok, err,
}
use anthroxy.Ir.{
  StopReason, end_turn, max_tokens, tool_use, refusal, Event, start, thinking_delta, text_delta,
  tool_call_start, tool_call_delta,
}
use anthroxy.Json.{Json, field, value_get, value_field}

pub data ParseError : Type 0 where
  not_json : Text → ParseError

-- The fields of one `tool_calls` entry.
pub record ToolCall : Type 0 where
  pub index : Option ℕ
  pub id : Option Text
  pub name : Option Text
  pub arguments : Text

-- `u32::try_from`
abbrev pub to_u32 : Option ℕ → Option ℕ
to_u32 none = none
to_u32 (some n) = if ltb n (2 ^ 32) then some n else none

-- `if !text.is_empty() { events.push(…) }`
abbrev pub unless_empty : (Text → Event) → Text → List Event
unless_empty event [] = []
unless_empty event (c ∷ t) = event (c ∷ t) ∷ []

abbrev pub or_empty : Option Text → Text
or_empty none = []
or_empty (some t) = t

module _ (j : Json) where
  open j use {Value, Object, from_slice, as_object, as_array, as_str, as_u64, is_null, get}

  unfoldable pub parse_object : Text → Result ParseError Object
  parse_object text = elim (from_slice text) [
    | err e ↦ err (not_json e)
    | ok v ↦ elim (as_object v) [ some o ↦ ok o | none ↦ err (not_json (ascii "not an object")) ]
  ]

  unfoldable pub start_event : Object → Event
  start_event root =
      start (or_empty (field j as_str root (ascii "id")))
        (or_empty (field j as_str root (ascii "model")))

  unfoldable pub first_choice : Object → Option Value
  first_choice root = elim (field j as_array root (ascii "choices")) [
    | some (choice ∷ choices) ↦ some choice
    | _ ↦ none
  ]

  -- The first `reasoning_content`, else `reasoning`; the second is read only where the first field
  -- is missing.
  abbrev reasoning : Object → Text
  reasoning delta = elim (get delta (ascii "reasoning_content")) [
    | some v ↦ or_empty (as_str v)
    | none ↦ or_empty (field j as_str delta (ascii "reasoning"))
  ]

  -- One part of a `content` array.
  abbrev text_part : Value → List Event
  text_part part =
      if text_eq (or_empty (value_field j as_str part (ascii "type"))) (ascii "text")
      then unless_empty text_delta (or_empty (value_field j as_str part (ascii "text")))
      else []

  unfoldable pub text_parts : List Value → List Event
  text_parts [] = []
  text_parts (part ∷ parts) = text_part part ++ text_parts parts

  -- A string, else an array of parts, else nothing.
  abbrev content : Option Value → List Event
  content none = []
  content (some v) = elim (as_str v) [
    | some t ↦ unless_empty text_delta t
    | none ↦ elim (as_array v) [ some parts ↦ text_parts parts | none ↦ [] ]
  ]

  -- `content_events`: reasoning, then a refusal, then text.
  unfoldable pub content_events : Object → List Event
  unfolding text_parts text_eq
  content_events delta =
      unless_empty thinking_delta (reasoning delta)
      ++ (unless_empty text_delta (or_empty (field j as_str delta (ascii "refusal")))
          ++ content (get delta (ascii "content")))

  unfoldable pub tool_call : Value → ToolCall
  tool_call call =
      let function = value_get j call (ascii "function") in
      record {
        index = to_u32 (value_field j as_u64 call (ascii "index"));
        id = value_field j as_str call (ascii "id");
        name = elim function [ none ↦ none | some f ↦ value_field j as_str f (ascii "name") ];
        arguments =
            or_empty
              (elim function [ none ↦ none | some f ↦ value_field j as_str f (ascii "arguments") ]);
      }

-- `push_tool_call`; a call without an id is given one, whose random part is `uuid`.
unfoldable pub push_tool_call : Text → ℕ → Option Text → Text → Text → List Event
push_tool_call uuid index id name arguments =
    tool_call_start index (elim id [ some i ↦ i | none ↦ ascii "call_" ++ uuid ]) name
    ∷ unless_empty (tool_call_delta index) arguments

unfoldable pub stop_reason : Text → StopReason
unfolding text_eq
stop_reason reason =
    if text_eq reason (ascii "length")
    then max_tokens
    else if text_eq reason (ascii "tool_calls")
    then tool_use
    else if text_eq reason (ascii "function_call")
    then tool_use
    else if text_eq reason (ascii "content_filter")
    then refusal
    else end_turn
