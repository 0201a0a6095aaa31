-- ===== src/OpenAi/Chunk.antt =====
-- src/openai/chunk.rs: streamed chunks to events, with the tool calls that the stream has opened.
pub mod Calls
pub mod Held
pub mod Started
pub mod Decoding
mod Tests
use anthroxy.Prelude.{
  ℕ, ◌+◌, ◌-◌, ◌*◌, ◌^◌, ◌==◌, Bool, true, false, ◌&&◌, not, Option, none, some, List, [], ◌∷◌,
  ◌++◌, if◌then◌else◌, ltb, length, Text, ascii, text_eq, trim, decimal, NatMap, Result, ok, err,
}
use anthroxy.Ir.{Event, error, done, finish}
use anthroxy.Ir.Failures.{upstream_failure}
use anthroxy.Json.{Json, field, value_field}
use anthroxy.OpenAi.{
  ParseError, ToolCall, parse_object, start_event, first_choice, content_events, tool_call,
  stop_reason,
}
use anthroxy.OpenAi.Usages.{usage_event}
use anthroxy.OpenAi.Errors.{error_document, decode_error}
use Calls.{ChunkDecoder, follow, finish_calls}

-- `ChunkDecoder::tool_call_delta` over the entries of a delta.
module _ (j : Json) (uuid : ℕ → Text) where
  open j use {Value, Object, as_object, as_array, as_str, get}

  unfoldable pub follow_all : List Value → ChunkDecoder → ChunkDecoder × List Event
  unfolding follow tool_call
  follow_all [] d = (d, [])
  follow_all (call ∷ calls) d =
      let (d', events) = follow uuid (tool_call j call) d in
      let (d'', more) = follow_all calls d' in (d'', events ++ more)

  -- The `delta` of a choice.
  abbrev pub delta_events : Option Object → ChunkDecoder → ChunkDecoder × List Event
  delta_events none d = (d, [])
  delta_events (some delta) d = elim (field j as_array delta (ascii "tool_calls")) [
    | none ↦ (d, content_events j delta)
    | some calls ↦ let (d', events) = follow_all calls d in (d', content_events j delta ++ events)
  ]

  abbrev reason_events : Option Text → List Event
  reason_events none = []
  reason_events (some reason) = finish (stop_reason reason) ∷ []

  unfoldable pub choice_events : Option Value → ChunkDecoder → ChunkDecoder × List Event
  unfolding follow_all content_events stop_reason
  choice_events none d = (d, [])
  choice_events (some choice) d =
      let (d', events) = delta_events (value_field j as_object choice (ascii "delta")) d in
      (d', events ++ reason_events (value_field j as_str choice (ascii "finish_reason")))

  abbrev event_list : Option Event → List Event
  event_list none = []
  event_list (some e) = e ∷ []

  -- A document that is no error.
  unfoldable pub document_events : Object → ChunkDecoder → ChunkDecoder × List Event
  unfolding choice_events start_event first_choice usage_event
  document_events root d =
      let (d', events) = choice_events (first_choice j root) (record d { started = true }) in
      (
        d',
        (if d.started then [] else start_event j root ∷ [])
            ++ (events ++ event_list (usage_event j root)),
      )

  -- `ChunkDecoder::decode`
  unfoldable pub decode : Text → ChunkDecoder → Result ParseError (List Event) × ChunkDecoder
  unfolding document_events parse_object error_document decode_error finish_calls trim text_eq
  decode payload d =
      let text = trim payload in
      let (ended, held) = finish_calls d in
      if text_eq text (ascii "[DONE]")
      then (ok (held ++ done ∷ []), ended)
      else elim (parse_object j text) [
        | err e ↦ (err e, d)
        | ok root ↦ elim (error_document j root) [
          | some message ↦ (ok (error (decode_error j none text) ∷ []), d)
          | none ↦ let (d', events) = document_events root d in (ok events, d')
        ]
      ]
