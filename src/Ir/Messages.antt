-- ===== src/Ir/Messages.antt =====
-- src/ir/message.rs: the events of a stream folded to one message.
use anthroxy.Prelude.{
  ℕ, zero, suc, ◌&&◌, Bool, true, false, not, Option, none, some, List, [], ◌∷◌, ◌++◌,
  if◌then◌else◌, is_empty, length, Text, NatMap, find, put, Result, ok, err,
}
use anthroxy.Ir.{
  StopReason, end_turn, resolve, Usage, no_usage, Event, start, thinking_delta, text_delta,
  tool_call_start, tool_call_delta, finish, usage, error, done, Failure,
}

pub data Block : Type 0 where
  thinking text : Text → Block
  -- id, name, arguments
  tool_use : Text → Text → Text → Block

pub record Message : Type 0 where
  pub id : Text
  pub model : Text
  pub blocks : List Block
  pub stop_reason : StopReason
  pub total_usage : Usage

-- The variables of the loop of `from_events`.
pub record Folded : Type 0 where
  pub message : Message
  pub tools : NatMap ℕ
  pub open_last : Bool

abbrev pub no_message : Message
no_message = record {
  id = [];
  model = [];
  blocks = [];
  stop_reason = end_turn;
  total_usage = no_usage;
}

abbrev pub nothing_folded : Folded
nothing_folded = record { message = no_message; tools = []; open_last = false }

-- The two kinds of block that deltas of text make.
pub data Kind : Type 0 where
  of_thinking of_text : Kind

abbrev pub said : Kind → Text → Block
said of_thinking t = thinking t
said of_text t = text t

abbrev pub is_of : Kind → Block → Bool
is_of of_thinking (thinking s) = true
is_of of_text (text s) = true
is_of _ _ = false

abbrev pub extended : Text → Block → Block
extended t (thinking s) = thinking (s ++ t)
extended t (text s) = text (s ++ t)
extended t (tool_use id name arguments) = tool_use id name (arguments ++ t)

-- The arms for `ThinkingDelta` and `TextDelta`: the last block is extended when it is open and of the
-- kind.
unfoldable pub add_said : Kind → Bool → Text → List Block → List Block
add_said k accepts t [] = said k t ∷ []
add_said k accepts t (b ∷ []) =
    if accepts && is_of k b then extended t b ∷ [] else b ∷ said k t ∷ []
add_said k accepts t (b ∷ c ∷ bs) = b ∷ add_said k accepts t (c ∷ bs)

unfoldable pub said_in : Kind → Text → Folded → Folded
unfolding add_said
said_in k t f = record f {
  message = record f.message { blocks = add_said k f.open_last t f.message.blocks };
  open_last = true;
}

-- Extends the block at a position when it is a tool call; each position in `tools` is one of a block.
unfoldable pub extend_tool : ℕ → Text → List Block → List Block
extend_tool i t [] = []
extend_tool zero t (tool_use id name arguments ∷ bs) = tool_use id name (arguments ++ t) ∷ bs
extend_tool zero t (b ∷ bs) = b ∷ bs
extend_tool (suc i) t (b ∷ bs) = b ∷ extend_tool i t bs

-- One turn of the loop; none is a `break`.
unfoldable pub step : Event → Folded → Result Failure (Option Folded)
unfolding said_in extend_tool find put
step (start id model) f = ok (
    some (
      if is_empty f.message.id && is_empty f.message.model
      then record f { message = record f.message { id = id; model = model } }
      else f))
step (thinking_delta t) f = ok (some (if is_empty t then f else said_in of_thinking t f))
step (text_delta t) f = ok (some (if is_empty t then f else said_in of_text t f))
step (tool_call_start index id name) f = ok (
    some (record {
      message = record f.message { blocks = f.message.blocks ++ tool_use id name [] ∷ [] };
      tools = put index (length f.message.blocks) f.tools;
      open_last = true;
    }))
step (tool_call_delta index arguments) f = ok (
    some (elim (find index f.tools) [
      | none ↦ f
      | some i ↦ record f {
        message = record f.message { blocks = extend_tool i arguments f.message.blocks };
      }
    ]))
step (finish reason) f =
    ok (some (record f { message = record f.message { stop_reason = reason }; open_last = false }))
step (usage u) f = ok (some (record f { message = record f.message { total_usage = u } }))
step (error failure) f = err failure
step done f = ok none

-- The loop, and what follows it.
abbrev pub ended : Folded → Message
ended f = record f.message { stop_reason = resolve f.message.stop_reason (not (is_empty f.tools)) }

unfoldable pub fold_from : List Event → Folded → Result Failure Message
unfolding step resolve
fold_from [] f = ok (ended f)
fold_from (event ∷ events) f = elim (step event f) [
  | err failure ↦ err failure
  | ok none ↦ ok (ended f)
  | ok (some f') ↦ fold_from events f'
]

-- `Message::from_events`
unfoldable pub from_events : List Event → Result Failure Message
unfolding fold_from
from_events events = fold_from events nothing_folded
