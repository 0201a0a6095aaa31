-- ===== src/Anthropic/Stream/Tests.antt =====
-- Runs of the encoder on the inputs of its tests.
use anthroxy.Prelude.{◌≡◌, refl, some, List, [], ◌∷◌, ascii}
use anthroxy.Ir.{
  Event, thinking_delta, end_turn, tool_use, no_usage, start, text_delta, tool_call_start,
  tool_call_delta, finish, done,
}
use anthroxy.Anthropic.Stream.{
  thinking_part, text_part, text_block, tool_block, input_json, message_start, block_start,
  block_delta, block_stop, message_delta, message_stop,
}
use anthroxy.Anthropic.Stream.Grammar.{before, ended, accept_all}
use anthroxy.Anthropic.Stream.Whole.{whole, whole_accepted}
use anthroxy.Anthropic.Stream.Content.{spoken, spoken-whole}

late_arguments :
    whole [] (ascii "m") (
      start (ascii "i") (ascii "q")
      ∷ tool_call_start 0 (ascii "c") (ascii "t")
      ∷ text_delta (ascii "x")
      ∷ tool_call_delta 0 (ascii "late")
      ∷ tool_call_delta 9 (ascii "orphan")
      ∷ finish end_turn
      ∷ done
      ∷ [])
    ≡ message_start (ascii "i") (ascii "q")
      ∷ block_start 0 (tool_block (ascii "c") (ascii "t"))
      ∷ block_stop 0
      ∷ block_start 1 text_block
      ∷ block_delta 1 (text_part (ascii "x"))
      ∷ block_delta 0 (input_json (ascii "late"))
      ∷ block_stop 1
      ∷ message_delta tool_use no_usage
      ∷ message_stop
      ∷ []
unfolding whole
late_arguments = refl

abbrev talk : List Event
talk =
    thinking_delta (ascii "plan") ∷ tool_call_start 0 [] (ascii "t") ∷ text_delta (ascii "x") ∷ []

whole_accepted_example : accept_all (whole (ascii "u") (ascii "m") talk) before ≡ some ended
whole_accepted_example = whole_accepted (ascii "u") (ascii "m") talk

spoken-whole_example :
    spoken (whole (ascii "u") (ascii "m") talk)
    ≡ thinking_part (ascii "plan") ∷ text_part (ascii "x") ∷ []
spoken-whole_example = spoken-whole (ascii "u") (ascii "m") talk
