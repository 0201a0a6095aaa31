-- ===== src/OpenAi/Chunk/Calls.antt =====
-- src/openai/chunk.rs: the decoder's state, one tool call delta, and the end of the stream.
use anthroxy.Prelude.{
  ℕ, ◌+◌, ◌-◌, ◌*◌, ◌^◌, ◌==◌, Bool, true, false, ◌&&◌, not, Option, none, some, List, [], ◌∷◌,
  ◌++◌, if◌then◌else◌, ltb, length, Text, ascii, decimal, NatMap, find, put, last_key,
}
use anthroxy.Ir.{Event, error, tool_call_delta}
use anthroxy.Ir.Failures.{upstream_failure}
use anthroxy.OpenAi.{ToolCall, push_tool_call, unless_empty}

abbrev pub max_pending_arguments : ℕ
max_pending_arguments = 8 * 1024 * 1024

abbrev pub max_calls : ℕ
max_calls = 256

pub data Call : Type 0 where
  -- id, arguments so far
  pending : Option Text → Text → Call
  started : Call

pub record ChunkDecoder : Type 0 where
  pub started : Bool
  pub calls : NatMap Call
  pub last : Option ℕ
  -- Arguments held across every pending call.
  pub held : ℕ
  pub stopped : Bool

abbrev pub new : ChunkDecoder
new = record { started = false; calls = []; last = none; held = 0; stopped = false }

-- `checked_add(1)` on a `u32`.
abbrev pub after_key : Option ℕ → Option ℕ
after_key none = some 0
after_key (some k) = if ltb (k + 1) (2 ^ 32) then some (k + 1) else none

-- An unnumbered delta with neither id nor name continues the latest call; any other is a new one.
unfoldable pub numbered : ToolCall → ChunkDecoder → Option ℕ
unfolding last_key
numbered call d = elim call.index [
  | some index ↦ some index
  | none ↦ elim d.last [
    | none ↦ after_key (last_key d.calls)
    | some latest ↦ elim call.id [
      | some i ↦ after_key (last_key d.calls)
      | none ↦ elim call.name [ some n ↦ after_key (last_key d.calls) | none ↦ some latest ]
    ]
  ]
]

unfoldable pub stop_following : Text → ChunkDecoder → ChunkDecoder × List Event
stop_following why d =
    (record d { stopped = true; calls = []; held = 0 }, error (upstream_failure why) ∷ [])

abbrev pub or_else : Option Text → Option Text → Option Text
or_else none b = b
or_else (some a) b = some a

-- A delta of a call that waits for its name, which holds `id` and `arguments` so far.
unfoldable pub waiting :
    Text → ℕ → Option Text → Text → ToolCall → ChunkDecoder → ChunkDecoder × List Event
unfolding put stop_following push_tool_call
waiting uuid index id arguments call d =
    let id' = or_else id call.id in
    let arguments' = arguments ++ call.arguments in
    let held = d.held + length call.arguments in
    let d' = record d { calls = put index (pending id' arguments') d.calls; held = held } in
    elim call.name [
      | none ↦
          if ltb max_pending_arguments held
          then stop_following
              (ascii "tool call "
                ++ (decimal index
                    ++ ascii " held more than 8388608 bytes of arguments without a function name"))
              d'
          else (d', [])
      | some name ↦ (
        record d { calls = put index started d.calls; held = held - length arguments' },
        push_tool_call uuid index id' name arguments',
      )
    ]

-- The `entry` of the call, and what its delta does.
unfoldable pub at_entry : Text → ℕ → ToolCall → ChunkDecoder → ChunkDecoder × List Event
unfolding find waiting
at_entry uuid index call d = elim (find index d.calls) [
  | none ↦ waiting uuid index none [] call d
  | some (pending id arguments) ↦ waiting uuid index id arguments call d
  | some started ↦ (d, unless_empty (tool_call_delta index) call.arguments)
]

abbrev pub is_key : ℕ → NatMap Call → Bool
is_key k m = elim (find k m) [ none ↦ false | some c ↦ true ]

-- The call is numbered: it becomes the latest, and is followed unless the stream opened too many.
unfoldable pub follow_at : Text → ℕ → ToolCall → ChunkDecoder → ChunkDecoder × List Event
unfolding at_entry
follow_at uuid index call d =
    let d' = record d { last = some index } in
    if not (is_key index d.calls) && length d.calls == max_calls
    then stop_following (ascii "the stream opened more than 256 tool calls") d'
    else at_entry uuid index call d'

-- `ChunkDecoder::tool_call_delta`; `uuid index` is what is drawn for a call without an id.
unfoldable pub follow : (ℕ → Text) → ToolCall → ChunkDecoder → ChunkDecoder × List Event
unfolding numbered follow_at
follow uuid call d = if d.stopped then (d, []) else elim (numbered call d) [
  | none ↦ stop_following (ascii "tool call indexes are exhausted") d
  | some index ↦ follow_at (uuid index) index call d
]

-- The calls still without a name, in the order of their indexes.
unfoldable pub unnamed : NatMap Call → List Event
unnamed [] = []
unnamed ((index, started) ∷ m) = unnamed m
unnamed ((index, pending id arguments) ∷ m) =
    error (
      upstream_failure
        (ascii "tool call " ++ (decimal index ++ ascii " never received a function name")))
    ∷ unnamed m

-- `ChunkDecoder::finish`
unfoldable pub finish_calls : ChunkDecoder → ChunkDecoder × List Event
unfolding unnamed
finish_calls d = (record d { calls = [] }, unnamed d.calls)
