-- ===== src/Anthropic/Stream.antt =====
-- src/anthropic/stream.rs: IR events to the events of a Messages API stream. The text that the
-- source appends to `out` is here the list of the events written, each with the fields of its JSON.
pub mod Grammar
pub mod Conforms
pub mod Whole
pub mod Content
pub mod Reading
pub mod Wire
mod Tests
use anthroxy.Prelude.{
  ℕ, ◌+◌, ◌%◌, ◌^◌, ◌==◌, Bool, true, false, not, ◌&&◌, Option, none, some, List, [], ◌∷◌, ◌++◌,
  if◌then◌else◌, is_empty, Text, ascii,
}
use anthroxy.Ir.{
  StopReason, end_turn, resolve, Usage, no_usage, Event, start, thinking_delta, text_delta,
  tool_call_start, tool_call_delta, finish, usage, error, done, Failure,
}
use anthroxy.Ir.Failures.{upstream_failure}
use anthroxy.Anthropic.Errors.{ErrorDetail, detail_of}

-- The `content_block` of a `content_block_start`.
pub data Block : Type 0 where
  thinking_block text_block : Block
  -- id, name
  tool_block : Text → Text → Block

pub data Delta : Type 0 where
  thinking_part text_part input_json : Text → Delta

-- One `frame` call: its event and the fields of its data.
pub data Written : Type 0 where
  -- id, model
  message_start : Text → Text → Written
  block_start : ℕ → Block → Written
  block_delta : ℕ → Delta → Written
  block_stop : ℕ → Written
  message_delta : StopReason → Usage → Written
  message_stop : Written
  error_event : ErrorDetail → Written

pub data State : Type 0 where
  idle opened closed : State

pub data Open : Type 0 where
  thinking_open text_open : ℕ → Open
  -- call, block
  tool_open : ℕ → ℕ → Open

-- `Open::block`
unfoldable pub block : Open → ℕ
block (thinking_open b) = b
block (text_open b) = b
block (tool_open call b) = b

pub data TextKind : Type 0 where
  thinking_kind text_kind : TextKind

pub record StreamEncoder : Type 0 where
  pub fallback_model : Text
  pub state : State
  pub next_index : ℕ
  pub open_now : Option Open
  -- Tool call index to content block index, for every call started.
  pub tools : List (ℕ × ℕ)
  pub stop : StopReason
  pub usage_now : Usage

-- `BTreeMap::insert` and `get`, where the order of the keys is never read.
unfoldable pub insert : ℕ → ℕ → List (ℕ × ℕ) → List (ℕ × ℕ)
insert k v [] = (k, v) ∷ []
insert k v ((j, w) ∷ m) = if j == k then (k, v) ∷ m else (j, w) ∷ insert k v m

unfoldable pub lookup : ℕ → List (ℕ × ℕ) → Option ℕ
lookup k [] = none
lookup k ((j, w) ∷ m) = if j == k then some w else lookup k m

-- `StreamEncoder::new`
abbrev pub new : Text → StreamEncoder
new fallback = record {
  fallback_model = fallback;
  state = idle;
  next_index = 0;
  open_now = none;
  tools = [];
  stop = end_turn;
  usage_now = no_usage;
}

-- A method returns the encoder after it and the events that it wrote.
abbrev pub Out : Type 0
Out = StreamEncoder × List Written

unfoldable pub close_open : StreamEncoder → Out
unfolding block
close_open e = elim e.open_now [
  | none ↦ (e, [])
  | some o ↦ (record e { open_now = none }, block_stop (block o) ∷ [])
]

-- `next_index += 1` on a `u32`, which wraps.
abbrev pub next_u32 : ℕ → ℕ
next_u32 n = (n + 1) % 2 ^ 32

-- `open_block`: the new block's index is the encoder's `next_index` before it.
unfoldable pub open_block : Block → StreamEncoder → Out
unfolding close_open
open_block content e =
    let (e', out) = close_open e in
    (
      record e' { next_index = next_u32 e'.next_index },
      out ++ block_start e'.next_index content ∷ [],
    )

-- The random part of a `msg_` id is what `uuid` drew for this message.
module _ (uuid : Text) where
  -- `fragments::identity`
  unfoldable pub identity : Text → Text → Text → Text × Text
  identity id model fallback =
      (if is_empty id then ascii "msg_" ++ uuid else id, if is_empty model then fallback else model)

  -- `StreamEncoder::start`
  unfoldable pub begin : Text → Text → StreamEncoder → Out
  unfolding identity
  begin id model e =
      let (id', model') = identity id model e.fallback_model in
      elim e.state [
        | idle ↦ (record e { state = opened }, message_start id' model' ∷ [])
        | _ ↦ (e, [])
      ]

  abbrev opening : TextKind → Block
  opening thinking_kind = thinking_block
  opening text_kind = text_block

  abbrev opened_as : TextKind → ℕ → Open
  opened_as thinking_kind b = thinking_open b
  opened_as text_kind b = text_open b

  abbrev part : TextKind → Text → Delta
  part thinking_kind t = thinking_part t
  part text_kind t = text_part t

  -- The block that a delta of the kind continues.
  abbrev continued : TextKind → Option Open → Option ℕ
  continued thinking_kind (some (thinking_open b)) = some b
  continued text_kind (some (text_open b)) = some b
  continued _ _ = none

  unfoldable pub text_delta_in : TextKind → Text → StreamEncoder → Out
  unfolding begin open_block
  text_delta_in k t e =
      let (e1, out) = begin [] [] e in
      let (e2, opens) = open_block (opening k) e1 in
      if is_empty t then (e, []) else elim (continued k e1.open_now) [
        | some b ↦ (e1, out ++ block_delta b (part k t) ∷ [])
        | none ↦ (
          record e2 { open_now = some (opened_as k e1.next_index) },
          out ++ (opens ++ block_delta e1.next_index (part k t) ∷ []),
        )
      ]

  -- The arm of `encode` for `ToolCallStart`.
  unfoldable pub tool_start_in : ℕ → Text → Text → StreamEncoder → Out
  unfolding begin open_block insert
  tool_start_in index id name e =
      let (e1, out) = begin [] [] e in
      let (e2, opens) = open_block (tool_block id name) e1 in
      (
        record e2 {
          tools = insert index e1.next_index e2.tools;
          open_now = some (tool_open index e1.next_index);
        },
        out ++ opens,
      )

-- The arm of `encode` for `ToolCallDelta`; the warning of a late delta changes nothing.
unfoldable pub tool_delta_in : ℕ → Text → StreamEncoder → Out
unfolding lookup
tool_delta_in index arguments e = elim (lookup index e.tools) [
  | none ↦ (e, [])
  | some b ↦ (e, block_delta b (input_json arguments) ∷ [])
]

unfoldable pub fail : Failure → StreamEncoder → Out
unfolding detail_of
fail f e = elim e.state [
  | closed ↦ (e, [])
  | _ ↦ (record e { state = closed }, error_event (detail_of f) ∷ [])
]

-- `StreamEncoder::finish`
unfoldable pub finish_stream : StreamEncoder → Out
unfolding close_open fail resolve
finish_stream e =
    let (e', out) = close_open e in
    elim e.state [
      | closed ↦ (e, [])
      | idle ↦ fail (upstream_failure (ascii "backend closed the stream without a response")) e
      | opened ↦ (
        record e' { state = closed },
        out
            ++ message_delta (resolve e'.stop (not (is_empty e'.tools))) e'.usage_now
              ∷ message_stop
              ∷ [],
      )
    ]

module _ (uuid : Text) where
  -- The match of `encode`, past its guard.
  unfoldable pub encode_open : Event → StreamEncoder → Out
  unfolding text_delta_in tool_start_in tool_delta_in finish_stream
  encode_open (start id model) e = begin uuid id model e
  encode_open (thinking_delta t) e = text_delta_in uuid thinking_kind t e
  encode_open (text_delta t) e = text_delta_in uuid text_kind t e
  encode_open (tool_call_start index id name) e = tool_start_in uuid index id name e
  encode_open (tool_call_delta index arguments) e = tool_delta_in index arguments e
  encode_open (finish reason) e = let (e', out) = close_open e in (record e' { stop = reason }, out)
  encode_open (usage u) e = (record e { usage_now = u }, [])
  encode_open (error f) e = fail f e
  encode_open done e = finish_stream e

  unfoldable pub encode : Event → StreamEncoder → Out
  unfolding encode_open
  encode event e = elim e.state [ closed ↦ (e, []) | _ ↦ encode_open event e ]

  unfoldable pub encode_all : List Event → StreamEncoder → Out
  unfolding encode
  encode_all [] e = (e, [])
  encode_all (event ∷ events) e =
      let (e', out) = encode event e in let (e'', more) = encode_all events e' in (e'', out ++ more)
