-- ===== src/OpenAi/Response.antt =====
-- src/openai/response.rs: a completed document to the events that a stream of it would have.
use anthroxy.Prelude.{
  ℕ, ◌+◌, Option, none, some, List, [], ◌∷◌, ◌++◌, Text, ascii, decimal, Result, ok, err,
}
use anthroxy.Ir.{Event, error, finish, Failure}
use anthroxy.Ir.Failures.{upstream_failure}
use anthroxy.Json.{Json, field, value_field}
use anthroxy.OpenAi.{
  ParseError, parse_object, start_event, first_choice, content_events, ToolCall, tool_call,
  push_tool_call, stop_reason,
}
use anthroxy.OpenAi.Usages.{usage_event}
use anthroxy.OpenAi.Errors.{error_document, decode_error}

pub data ResponseError : Type 0 where
  unreadable : ParseError → ResponseError
  no_choices : ResponseError
  backend : Failure → ResponseError

module _ (j : Json) (uuid : ℕ → Text) where
  open j use {Value, Object, as_object, as_array, as_str}

  -- One tool call of the message.
  abbrev call_events : ℕ → ToolCall → List Event
  call_events index call = elim call.name [
    | some name ↦ push_tool_call (uuid index) index call.id name call.arguments
    | none ↦
        error (
          upstream_failure (ascii "tool call " ++ (decimal index ++ ascii " has no function name")))
        ∷ []
  ]

  unfoldable pub calls_from : ℕ → List Value → List Event
  unfolding push_tool_call tool_call
  calls_from index [] = []
  calls_from index (call ∷ calls) =
      call_events index (tool_call j call) ++ calls_from (index + 1) calls

  abbrev message_events : Option Object → List Event
  message_events none = []
  message_events (some message) =
      content_events j message ++ elim (field j as_array message (ascii "tool_calls")) [
        | none ↦ []
        | some calls ↦ calls_from 0 calls
      ]

  abbrev reason_events : Option Text → List Event
  reason_events none = []
  reason_events (some reason) = finish (stop_reason reason) ∷ []

  abbrev event_list : Option Event → List Event
  event_list none = []
  event_list (some e) = e ∷ []

  unfoldable pub document : Object → Value → List Event
  unfolding calls_from content_events stop_reason start_event usage_event
  document root choice =
      (start_event j root ∷ [])
      ++ (message_events (value_field j as_object choice (ascii "message"))
          ++ (reason_events (value_field j as_str choice (ascii "finish_reason"))
              ++ event_list (usage_event j root)))

  -- `response::decode`
  unfoldable pub decode_response : Text → Result ResponseError (List Event)
  unfolding document parse_object error_document decode_error first_choice
  decode_response body = elim (parse_object j body) [
    | err e ↦ err (unreadable e)
    | ok root ↦ elim (error_document j root) [
      | some message ↦ ok (error (decode_error j none body) ∷ [])
      | none ↦ elim (first_choice j root) [
        | none ↦ err no_choices
        | some choice ↦ ok (document root choice)
      ]
    ]
  ]
