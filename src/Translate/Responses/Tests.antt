-- ===== src/Translate/Responses/Tests.antt =====
-- A run of both answers to a body.
use anthroxy.Prelude.{ℕ, ◌≡◌, refl, List, [], ◌∷◌, Text, ascii, ok, arith}
use anthroxy.Ir.{Event, start, text_delta, end_turn, no_usage}
use anthroxy.Json.Sample.{sample}
use anthroxy.OpenAi.Response.{decode_response}
use anthroxy.Anthropic.Stream.{
  Written, encode_all, message_start, block_start, text_block, block_delta, text_part, block_stop,
  message_delta, message_stop,
}
use anthroxy.Anthropic.Stream.Reading.{Reading, nothing_read, read_events}
use anthroxy.Anthropic.Messages.{MessageDocument, text_content}
use anthroxy.Translate.{document_stream}
use anthroxy.Translate.Responses.{response, SaysTheSame, response_streamed}

abbrev uuid : ℕ → Text
uuid n = ascii "u"

abbrev events : List Event
events = start [] [] ∷ text_delta (ascii "hi") ∷ []

abbrev hi_document : MessageDocument sample
hi_document = record {
  id = ascii "msg_m";
  model = ascii "claude";
  content = text_content (ascii "hi") ∷ [];
  stop_reason = end_turn;
  usage = no_usage;
}

abbrev stream : List Written
stream =
    message_start (ascii "msg_m") (ascii "claude")
    ∷ block_start 0 text_block
    ∷ block_delta 0 (text_part (ascii "hi"))
    ∷ block_stop 0
    ∷ message_delta end_turn no_usage
    ∷ message_stop
    ∷ []

hi-decode_response : decode_response sample uuid (ascii "{hi}") ≡ ok events
unfolding decode_response
hi-decode_response = refl

hi-response : response sample (ascii "m") uuid (ascii "{hi}") (ascii "claude") ≡ ok hi_document
unfolding response
hi-response = refl

hi-document_stream :
    document_stream sample (ascii "m") uuid (ascii "{hi}") (ascii "claude") ≡ ok stream
unfolding document_stream encode_all
hi-document_stream = refl

response_streamed_example :
    (r : Reading) × (read_events stream nothing_read ≡ ok r)
    × SaysTheSame sample (ascii "m") uuid hi_document r
response_streamed_example =
    response_streamed sample (ascii "m") uuid (ascii "{hi}") (ascii "claude") events hi_document
      stream hi-decode_response (omega arith) hi-response hi-document_stream
