-- ===== src/Translate/Tests.antt =====
-- Runs of the translator.
use anthroxy.Prelude.{
  ℕ, ◌≡◌, refl, true, some, List, [], ◌∷◌, ◌++◌, Text, ascii, position, split_on, join, ok,
}
use anthroxy.Json.Sample.{sample}
use anthroxy.Ir.{end_turn, no_usage}
use anthroxy.Anthropic.Stream.{
  encode_all, message_start, block_start, text_block, block_delta, text_part, block_stop,
  message_delta, message_stop,
}
use anthroxy.Anthropic.Stream.Grammar.{before, accept_all}
use anthroxy.Anthropic.Stream.Grammar
use anthroxy.Sse
use anthroxy.OpenAi.Chunk.Held.{IsSound, new-IsSound}
use anthroxy.OpenAi.Chunk.Calls
use anthroxy.OpenAi.Chunk.{decode}
use anthroxy.OpenAi.Chunk.Decoding.{decode-IsSound}
use anthroxy.Translate.{Item, chunk, ended, new, document_stream}
use anthroxy.Translate.Streams.{answer, answer_accepted}
use anthroxy.Translate.Documents.{document_accepted}

abbrev uuid : ℕ → Text
uuid n = ascii "u"

-- A frame cut in two, then the end of the body.
abbrev items : List Item
items = chunk (ascii "data: {h") ∷ chunk (ascii "i}" ++ (10 ∷ 10 ∷ [])) ∷ ended ∷ []

said_hi : answer sample (ascii "m") uuid 4 items (new (ascii "claude") (ascii "b")) ≡ (
  message_start (ascii "msg_m") (ascii "claude")
      ∷ block_start 0 text_block
      ∷ block_delta 0 (text_part (ascii "hi"))
      ∷ block_stop 0
      ∷ message_delta end_turn no_usage
      ∷ message_stop
      ∷ [],
  true,
)
unfolding answer decode anthroxy.Sse.feed position join split_on encode_all anthroxy.Sse.finish
said_hi = refl

answer_accepted_example :
    (accept_all (answer sample (ascii "m") uuid 4 items (new (ascii "claude") (ascii "b"))).0 before
      ≡ some Grammar.ended)
    × ((answer sample (ascii "m") uuid 4 items (new (ascii "claude") (ascii "b"))).1 ≡ true)
answer_accepted_example =
    answer_accepted sample (ascii "m") uuid (ascii "claude") (ascii "b") items refl

decode-IsSound_example : IsSound (decode sample uuid (ascii "{hi}") Calls.new).1
decode-IsSound_example = decode-IsSound sample uuid (ascii "{hi}") Calls.new new-IsSound

document_said_hi :
    document_stream sample (ascii "m") uuid (ascii "{hi}") (ascii "claude")
    ≡ ok (
        message_start (ascii "msg_m") (ascii "claude")
        ∷ block_start 0 text_block
        ∷ block_delta 0 (text_part (ascii "hi"))
        ∷ block_stop 0
        ∷ message_delta end_turn no_usage
        ∷ message_stop
        ∷ [])
unfolding document_stream encode_all
document_said_hi = refl

document_accepted_example :
    accept_all
      (message_start (ascii "msg_m") (ascii "claude")
        ∷ block_start 0 text_block
        ∷ block_delta 0 (text_part (ascii "hi"))
        ∷ block_stop 0
        ∷ message_delta end_turn no_usage
        ∷ message_stop
        ∷ [])
      before
    ≡ some Grammar.ended
document_accepted_example =
    document_accepted sample (ascii "m") uuid (ascii "{hi}") (ascii "claude")
      (message_start (ascii "msg_m") (ascii "claude")
        ∷ block_start 0 text_block
        ∷ block_delta 0 (text_part (ascii "hi"))
        ∷ block_stop 0
        ∷ message_delta end_turn no_usage
        ∷ message_stop
        ∷ [])
      document_said_hi
