-- ===== src/Anthropic/Stream/Reading/Tests.antt =====
-- A run of both folds.
use anthroxy.Prelude.{◌≡◌, refl, List, [], ◌∷◌, ascii, ok, arith}
use anthroxy.Ir.{
  Event, start, text_delta, tool_call_start, tool_call_delta, finish, end_turn, tool_use, no_usage,
  done,
}
use anthroxy.Ir.Messages.{text, Message, from_events}
use anthroxy.Anthropic.Stream.Whole.{whole}
use anthroxy.Anthropic.Stream.Reading.{nothing_read, read_events}
use anthroxy.Anthropic.Stream.Reading.Ends.{answers, expected}
use anthroxy.Anthropic.Stream.Reading.Agrees.{read_events-whole}

abbrev events : List Event
events =
    start (ascii "m") (ascii "x")
    ∷ text_delta (ascii "a")
    ∷ text_delta (ascii "b")
    ∷ tool_call_start 0 (ascii "c") (ascii "f")
    ∷ text_delta (ascii "d")
    ∷ tool_call_delta 0 (ascii "{}")
    ∷ finish end_turn
    ∷ done
    ∷ []

abbrev message : Message
message = record {
  id = ascii "m";
  model = ascii "x";
  blocks =
      text (ascii "ab")
      ∷ anthroxy.Ir.Messages.tool_use (ascii "c") (ascii "f") (ascii "{}")
      ∷ text (ascii "d")
      ∷ [];
  stop_reason = tool_use;
  total_usage = no_usage;
}

events-from_events : from_events events ≡ ok message
unfolding from_events
events-from_events = refl

read_events-whole_example :
    read_events (whole (ascii "u") (ascii "x") events) nothing_read
    ≡ expected (answers events) (from_events events)
read_events-whole_example = read_events-whole (ascii "u") (ascii "x") events (omega arith)
