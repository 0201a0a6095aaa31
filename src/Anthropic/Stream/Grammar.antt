-- ===== src/Anthropic/Stream/Grammar.antt =====
-- The order of events that a client of the Messages API reads, as an automaton over what was
-- written: it is stated with no reference to the encoder.
use anthroxy.Prelude.{ℕ, ◌==◌, Bool, false, Option, none, some, List, [], ◌∷◌, if◌then◌else◌, any}
use anthroxy.Anthropic.Stream.{
  Block, thinking_block, text_block, tool_block, Delta, thinking_part, text_part, input_json,
  Written, message_start, block_start, block_delta, block_stop, message_delta, message_stop,
  error_event, next_u32,
}

-- The kind of the block that is open.
pub data Kind : Type 0 where
  thinking text tool : Kind

abbrev pub kind_of : Block → Kind
kind_of thinking_block = thinking
kind_of text_block = text
kind_of (tool_block id name) = tool

-- Before `message_start`; in the message, with the open block, the index of the next block and the
-- indexes of the tool blocks so far; between `message_delta` and `message_stop`; at the end.
pub data Phase : Type 0 where
  before : Phase
  inside : Option (ℕ × Kind) → ℕ → List ℕ → Phase
  ending : Phase
  ended : Phase

abbrev pub is_open : ℕ → Kind → Option (ℕ × Kind) → Bool
is_open b thinking (some (c, thinking)) = b == c
is_open b text (some (c, text)) = b == c
is_open _ _ _ = false

abbrev started_tool : Kind → ℕ → List ℕ → List ℕ
started_tool tool b tools = b ∷ tools
started_tool _ b tools = tools

-- Text goes to the open block of its kind; arguments go to a tool block, open or not.
abbrev pub may_take : ℕ → Delta → Option (ℕ × Kind) → List ℕ → Bool
may_take b (thinking_part t) now tools = is_open b thinking now
may_take b (text_part t) now tools = is_open b text now
may_take b (input_json t) now tools = any (λ c. b == c) tools

-- One event, if it may come next.
unfoldable pub accept : Written → Phase → Option Phase
accept (error_event d) ended = none
accept (error_event d) ending = none
accept (error_event d) _ = some ended
accept (message_start id model) before = some (inside none 0 [])
accept (block_start b content) (inside none n tools) =
    if b == n
    then some
        (inside (some (b, kind_of content)) (next_u32 n) (started_tool (kind_of content) b tools))
    else none
accept (block_delta b d) (inside now n tools) =
    if may_take b d now tools then some (inside now n tools) else none
accept (block_stop b) (inside (some (c, k)) n tools) =
    if b == c then some (inside none n tools) else none
accept (message_delta r u) (inside none n tools) = some ending
accept message_stop ending = some ended
accept _ _ = none

-- A run of events, if each may come next.
abbrev pub accept_all : List Written → Phase → Option Phase
accept_all [] p = some p
accept_all (w ∷ ws) p = elim (accept w p) [ none ↦ none | some q ↦ accept_all ws q ]
