-- ===== src/Sse.antt =====
-- src/sse/parser.rs: the incremental parser of server-sent events. A chunk of the body and the
-- buffer are bytes; `usize` offsets are plain numbers, since they never pass the buffer's length.
pub mod Lines
pub mod Machine
pub mod Feeding
pub mod Chunks
pub mod Bounds
mod Tests
use anthroxy.Prelude.{
  ℕ, zero, suc, ◌+◌, ◌-◌, ◌*◌, ◌==◌, Bool, true, false, Option, none, some, List, [], ◌∷◌, ◌++◌,
  ltb, min, max, if◌then◌else◌, is_empty, length, drop, take, slice, Text, ascii, strip_prefix,
  position, split_on, join, is_utf8, Result, ok, err, not,
}

abbrev pub max_frame_bytes : ℕ
max_frame_bytes = 16 * 1024 * 1024

pub record Frame : Type 0 where
  pub payload : Text

pub data SseError : Type 0 where
  utf8 too_large : SseError

pub record Parser : Type 0 where
  pub buffer : Text
  -- Where the line being read starts.
  pub line_start : ℕ
  -- Bytes of `buffer` already searched for a newline.
  pub scanned : ℕ

-- `Parser::new`, and what `reset` leaves.
abbrev pub fresh : Parser
fresh = record { buffer = []; line_start = 0; scanned = 0 }

abbrev pub newline : ℕ
newline = 10

abbrev pub carriage_return : ℕ
carriage_return = 13

-- `line.strip_suffix(b"\r").unwrap_or(line)`
unfoldable pub strip_cr : Text → Text
strip_cr [] = []
strip_cr (b ∷ []) = if b == carriage_return then [] else b ∷ []
strip_cr (b ∷ c ∷ t) = b ∷ strip_cr (c ∷ t)

-- What `frame_end` returns: `Ok((end, next))`, or `Err(start)` of the line left open.
pub data FrameEnd : Type 0 where
  found : ℕ → ℕ → FrameEnd
  open_at : ℕ → FrameEnd

-- One round of the `while let` of `frame_end`, at what `position` returned; `again` is the round
-- after it, at the new `start` and `from`.
abbrev frame_end_at : (ℕ → ℕ → FrameEnd) → Text → ℕ → ℕ → Option ℕ → FrameEnd
frame_end_at again buf start from none = open_at start
frame_end_at again buf start from (some len) =
    let end = from + len in
    let rest = again (end + 1) (end + 1) in
    if is_empty (strip_cr (slice start end buf)) then found start (end + 1) else rest

-- The `while let` of `frame_end`; each round moves past one newline, so the fuel is the bytes left.
unfoldable pub frame_end_from : ℕ → Text → ℕ → ℕ → FrameEnd
unfolding strip_cr
frame_end_from zero buf start from = open_at start
frame_end_from (suc fuel) buf start from =
    frame_end_at (frame_end_from fuel buf) buf start from (position newline (drop from buf))

-- `clamp(start, buf.len())`
unfoldable pub frame_end : Text → ℕ → ℕ → FrameEnd
unfolding frame_end_from
frame_end buf line_start scanned =
    let start = min line_start (length buf) in
    frame_end_from (length buf + 1) buf start (min (max scanned start) (length buf))

-- `line.strip_prefix("data:")` with one leading space taken off.
unfoldable pub data_value : Text → Option Text
data_value line = elim (strip_prefix (ascii "data:") line) [
  | none ↦ none
  | some value ↦ elim (strip_prefix (ascii " ") value) [ none ↦ some value | some v ↦ some v ]
]

-- The values of the `data:` lines, in order; none stands for `data == None`.
unfoldable pub data_values : List Text → List Text
unfolding data_value strip_cr
data_values [] = []
data_values (line ∷ lines) =
    let rest = data_values lines in
    elim (data_value (strip_cr line)) [ none ↦ rest | some value ↦ value ∷ rest ]

unfoldable pub parse_frame : Text → Result SseError (Option Frame)
unfolding data_values is_utf8
parse_frame raw =
    if is_utf8 raw
    then (let text = join (ascii "\n") (data_values (split_on newline raw)) in
        ok (if is_empty text then none else some (record { payload = text })))
    else err utf8

-- A frame pushed before the frames that the later rounds push; an error drops them all.
abbrev pub push_front :
    Frame → Result SseError (List Frame) × Parser → Result SseError (List Frame) × Parser
push_front frame (ok frames, q) = (ok (frame ∷ frames), q)
push_front frame (err e, q) = (err e, q)

-- The match on `parse_frame(raw)`; `rest` is what the later rounds of the loop make of it.
abbrev pub then_frame :
    Result SseError (Option Frame)
    → Result SseError (List Frame) × Parser
    → Result SseError (List Frame) × Parser
then_frame (err e) rest = (err e, fresh)
then_frame (ok none) rest = rest
then_frame (ok (some frame)) rest = push_front frame rest

-- One round of the loop of `feed`, at what `frame_end` returned; `again` is the round after it, at
-- the new `consumed` and the parser with `line_start` and `scanned` reset.
abbrev pub feed_at :
    (ℕ → Result SseError (List Frame) × Parser)
    → Parser
    → ℕ
    → FrameEnd
    → Result SseError (List Frame) × Parser
feed_at again p consumed (found end next) =
    let rest = again (consumed + next) in
    then_frame (parse_frame (slice consumed (consumed + end) p.buffer)) rest
feed_at again p consumed (open_at start) = (
  ok [],
  record {
    buffer = drop consumed p.buffer;
    line_start = start;
    scanned = length p.buffer - consumed;
  },
)

-- The loop of `feed` over the frames of the buffer, from `consumed` on, with the `drain` behind it:
-- the frames found and the parser. Each round consumes at least one byte.
unfoldable pub feed_from : ℕ → Parser → ℕ → Result SseError (List Frame) × Parser
unfolding frame_end parse_frame
feed_from zero p consumed = (ok [], p)
feed_from (suc fuel) p consumed =
    feed_at (feed_from fuel (record p { line_start = 0; scanned = 0 })) p consumed
      (frame_end (drop consumed p.buffer) p.line_start p.scanned)

unfoldable pub feed : Parser → Text → Result SseError (List Frame) × Parser
unfolding feed_from
feed p chunk =
    let buffer = p.buffer ++ chunk in
    if ltb max_frame_bytes (length buffer)
    then (err too_large, fresh)
    else feed_from (length buffer + 1) (record p { buffer = buffer }) 0

unfoldable pub finish : Parser → Result SseError (List Frame) × Parser
unfolding parse_frame
finish p = then_frame (parse_frame p.buffer) (ok [], fresh)
