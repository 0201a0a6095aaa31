-- ===== src/Translate.antt =====
-- src/translate/stream.rs: Chat Completions event bytes in, Messages API events out; and
-- src/translate/response.rs for a completed document. The JSON crate is the argument `j`; `message`
-- and `uuid` are what the crate uuid drew for the message and for each tool call.
pub mod Steps
pub mod Streams
pub mod Documents
pub mod Responses
pub mod Requests
mod Tests
use anthroxy.Prelude.{
  ℕ, Bool, true, false, ◌||◌, not, Option, none, some, List, [], ◌∷◌, ◌++◌, if◌then◌else◌, is_empty,
  Text, ascii, Result, ok, err,
}
use anthroxy.Sse
use anthroxy.Sse.{Parser, Frame, SseError, utf8, too_large}
use anthroxy.Ir.{Failure}
use anthroxy.Ir.Failures.{upstream_failure}
use anthroxy.Json.{Json}
use anthroxy.OpenAi.{ParseError, not_json}
use anthroxy.OpenAi.Chunk.{decode}
use anthroxy.OpenAi.Chunk.Calls
use anthroxy.OpenAi.Chunk.Calls.{ChunkDecoder, finish_calls}
use anthroxy.OpenAi.Response.{ResponseError, decode_response}
use anthroxy.Anthropic.Stream
use anthroxy.Anthropic.Stream.{StreamEncoder, Written, encode_all, finish_stream}

-- `Translator`, without the inner stream.
pub record Translator : Type 0 where
  pub parser : Parser
  pub decoder : ChunkDecoder
  pub encoder : StreamEncoder
  pub backend : Text
  pub done : Bool

-- `Translator::new`
abbrev pub new : Text → Text → Translator
new fallback_model backend = record {
  parser = Sse.fresh;
  decoder = Calls.new;
  encoder = Stream.new fallback_model;
  backend = backend;
  done = false;
}

-- The `Display` of the errors.
abbrev sse_error : SseError → Text
sse_error utf8 = ascii "event stream is not valid UTF-8"
sse_error too_large = ascii "one event exceeds 16777216 bytes"

abbrev parse_error : ParseError → Text
parse_error (not_json why) = ascii "not a JSON object: " ++ why

-- What the inner stream hands over when polled and ready.
pub data Item : Type 0 where
  chunk : Text → Item
  -- A transport error, as printed.
  broken : Text → Item
  ended : Item

abbrev pub Out : Type 0
Out = Translator × List Written

-- `Translator::fail`
unfoldable pub fail : Text → Translator → Out
fail detail t =
    let message = ascii "[backend " ++ (t.backend ++ (ascii "] " ++ detail)) in
    let (e, out) = Stream.fail (upstream_failure message) t.encoder in
    (record t { encoder = e }, out)

abbrev pub yielded : List Written → Option (List Written)
yielded [] = none
yielded (w ∷ ws) = some (w ∷ ws)

-- What `poll_next` returns, and the items that it left: `none` is `Poll::Pending`, `some none` the
-- end of the stream.
abbrev pub Polled : Type 0
Polled = Option (Option (List Written)) × Translator × List Item

module _ (j : Json) (message : Text) (uuid : ℕ → Text) where
  -- The loop over frames; a bad frame ends it.
  unfoldable pub each_frame : List Frame → Translator → Out
  unfolding fail
  each_frame [] t = (t, [])
  each_frame (frame ∷ frames) t =
      let (r, d) = decode j uuid frame.payload t.decoder in
      elim r [
        | err e ↦ fail (ascii "malformed event: " ++ parse_error e) (record t { decoder = d })
        | ok events ↦
            let (e, out) = encode_all message events t.encoder in
            let (t', more) = each_frame frames (record t { decoder = d; encoder = e }) in
            (t', out ++ more)
      ]

  -- `Translator::frames`
  unfoldable pub frames : Result SseError (List Frame) → Translator → Out
  unfolding each_frame fail
  frames (err e) t = fail (ascii "malformed event stream: " ++ sse_error e) t
  frames (ok fs) t = each_frame fs t

  -- `Translator::end`
  unfoldable pub end_stream : Translator → Out
  unfolding frames
  end_stream t =
      let (parsed, p) = Sse.finish t.parser in
      let (t', out) = frames parsed (record t { parser = p }) in
      let (d, held) = finish_calls t'.decoder in
      let (e, more) = encode_all message held t'.encoder in
      let (e', last) = finish_stream e in
      (record t' { decoder = d; encoder = e' }, out ++ (more ++ last))

  -- One ready poll of the inner stream.
  unfoldable pub take_item : Item → Translator → Out
  unfolding frames end_stream fail
  take_item (chunk bytes) t =
      let (parsed, p) = Sse.feed t.parser bytes in frames parsed (record t { parser = p })
  take_item (broken why) t =
      fail (ascii "connection lost mid-stream: " ++ why) (record t { done = true })
  take_item ended t = end_stream (record t { done = true })

  -- The loop of `poll_next` over the items that are ready.
  unfoldable pub rounds : List Item → Translator → Polled
  unfolding take_item
  rounds [] t = (none, t, [])
  rounds (item ∷ items) t =
      let (t', out) = take_item item t in
      let more = rounds items t' in
      if t'.done || not (is_empty out) then (some (yielded out), t', items) else more

  -- `poll_next`
  unfoldable pub poll : List Item → Translator → Polled
  unfolding rounds
  poll items t = if t.done then (some none, t, items) else rounds items t

  -- `response::document_events`
  unfoldable pub document_stream : Text → Text → Result ResponseError (List Written)
  unfolding decode_response
  document_stream body fallback_model = elim (decode_response j uuid body) [
    | err e ↦ err e
    | ok events ↦
        let (e, out) = encode_all message events (Stream.new fallback_model) in
        ok (out ++ (finish_stream e).1)
  ]
