-- ===== src/Sse/Feeding.antt =====
-- `feed` of src/sse/parser.rs runs the machine and parses the raw frames that it emits, whatever
-- the chunks: the parser that holds a machine's bytes is determined by the machine.
use anthroxy.Prelude.{
  ℕ, zero, suc, ◌+◌, ◌-◌, ◌≤◌, ◌<◌, ◌≡◌, refl, sym, ap, ◌∙◌, List, [], ◌∷◌, ◌++◌, length, drop,
  take, slice, Text, arith, length-append, drop-append_at, take-append_at, append_assoc, drop-drop,
  length-drop, Result, ok, err, Option, some, none, not-ltb,
}
use anthroxy.Sse.{
  Parser, Frame, SseError, FrameEnd, fresh, feed, feed_from, then_frame, frame_end, frame_end_from,
  parse_frame, max_frame_bytes,
}
use anthroxy.Sse.Machine.{Machine, start, run}
use anthroxy.Sse.Lines.{pending, frame, open_line, next, frame_end-clamped}

-- The frames of raw frames, up to the first that is malformed.
abbrev pub collect_next :
    Result SseError (Option Frame) → Result SseError (List Frame) → Result SseError (List Frame)
collect_next (err e) rest = err e
collect_next (ok none) rest = rest
collect_next (ok (some f)) (ok fs) = ok (f ∷ fs)
collect_next (ok (some f)) (err e) = err e

unfoldable pub collect : List Text → Result SseError (List Frame)
collect [] = ok []
collect (raw ∷ raws) = collect_next (parse_frame raw) (collect raws)

-- The parser that holds the bytes of a machine.
abbrev pub parser_of : Machine → Parser
parser_of m = record {
  buffer = pending m;
  line_start = length m.lines;
  scanned = length (pending m);
}

-- An error discards the pending bytes.
abbrev pub after : Result SseError (List Frame) → Machine → Machine
after (ok fs) m = m
after (err e) m = start

then_frame-collect :
    (r : Result SseError (Option Frame)) (s : Result SseError (List Frame)) (m : Machine)
    → then_frame r (s, parser_of (after s m))
      ≡ (collect_next r s, parser_of (after (collect_next r s) m))
then_frame-collect (err e) s m = refl
then_frame-collect (ok none) s m = refl
then_frame-collect (ok (some f)) (ok fs) m = refl
then_frame-collect (ok (some f)) (err e) m = refl

module _ (p : Parser) (consumed : ℕ) (m : Machine) (t : Text)
    (e : drop consumed p.buffer ≡ m.lines ++ (m.line ++ t)) (l : p.line_start ≡ length m.lines)
    (s : p.scanned ≡ length m.lines + length m.line) where
  left : length (drop consumed p.buffer) ≡ length m.lines + length m.line + length t
  left = omega (arith, ap length e, length-append m.lines (m.line ++ t), length-append m.line t)

  -- What the round's call of `frame_end` returns.
  search :
      (r : FrameEnd)
      → ((fuel : ℕ)
          → length t < fuel
          → frame_end_from fuel (drop consumed p.buffer) (length m.lines) p.scanned ≡ r)
      → frame_end (drop consumed p.buffer) p.line_start p.scanned ≡ r
  search r finds =
      frame_end-clamped (drop consumed p.buffer) p.line_start p.scanned (omega (arith, l, s))
        (omega (arith, left, s))
      ∙ ap
          (λ z.
            frame_end_from (length (drop consumed p.buffer) + 1) (drop consumed p.buffer) z
              p.scanned)
          l
      ∙ finds (length (drop consumed p.buffer) + 1) (omega (arith, left))

  -- The state that the loop leaves.
  drained :
      (m' : Machine)
      → drop consumed p.buffer ≡ pending m'
      → ◌≡◌ {A = Parser}
          (record {
            buffer = drop consumed p.buffer;
            line_start = length m'.lines;
            scanned = length p.buffer - consumed;
          })
          (parser_of m')
  drained m' at =
      let size : length p.buffer - consumed ≡ length (pending m') =
        sym (length-drop consumed p.buffer) ∙ ap length at in
      λ i. record { buffer = at i; line_start = length m'.lines; scanned = size i }

  -- The bytes behind a frame.
  behind :
      (raw sep rest : Text)
      → drop consumed p.buffer ≡ raw ++ (sep ++ rest)
      → drop (consumed + (length raw + length sep)) p.buffer ≡ rest
  behind raw sep rest at =
      drop-drop consumed (length raw + length sep) p.buffer
      ∙ ap (drop (length raw + length sep)) (at ∙ sym (append_assoc raw sep rest))
      ∙ drop-append_at (length raw + length sep) (raw ++ sep) rest (sym (length-append raw sep))

  raw_at :
      (raw sep rest : Text)
      → drop consumed p.buffer ≡ raw ++ (sep ++ rest)
      → slice consumed (consumed + length raw) p.buffer ≡ raw
  raw_at raw sep rest at =
      ap (take (consumed + length raw - consumed)) at
      ∙ take-append_at (consumed + length raw - consumed) raw (sep ++ rest) (omega arith)

-- The loop of `feed` at any point: the machine `m` stands for what the parser has searched.
feed_from-run :
    (fuel : ℕ) (p : Parser) (consumed : ℕ) (m : Machine) (t : Text)
    → drop consumed p.buffer ≡ m.lines ++ (m.line ++ t)
    → p.line_start ≡ length m.lines
    → p.scanned ≡ length m.lines + length m.line
    → length (drop consumed p.buffer) < fuel
    → feed_from fuel p consumed
      ≡ (collect (run m t).0, parser_of (after (collect (run m t).0) (run m t).1))
unfolding feed_from collect
feed_from-run zero p consumed m t e l s h = absurd (omega arith)
feed_from-run (suc fuel) p consumed m t e l s h =
    elim (next m t (drop consumed p.buffer) p.scanned e s) [
      | open_line m' at runs finds ↦
          rw (runs, search p consumed m t e l s _ finds)
            (ap (λ q. (ok [], q)) (drained p consumed m t e l s m' at))
      | frame raw sep rest at pos runs finds ↦
          let p' : Parser = record p { line_start = 0; scanned = 0 } in
          let on = consumed + (length raw + length sep) in
          let bytes = behind p consumed m t e l s raw sep rest at in
          let size : length (drop on p.buffer) < fuel = omega (
            arith,
            ap length at,
            ap length bytes,
            length-append raw (sep ++ rest),
            length-append sep rest,
          ) in
          let more = feed_from-run fuel p' on start rest bytes refl refl size in
          rw
            (
              runs,
              search p consumed m t e l s _ finds,
              raw_at p consumed m t e l s raw sep rest at,
              more,
            )
            (then_frame-collect (parse_frame raw) (collect (run start rest).0) (run start rest).1)
    ]

-- One call of `feed` on a parser that holds the bytes of `m`: the frames of the run, and a parser
-- that holds the bytes of the machine after it.
pub feed-run :
    (m : Machine) (t : Text)
    → length (pending m) + length t ≤ max_frame_bytes
    → feed (parser_of m) t
      ≡ (collect (run m t).0, parser_of (after (collect (run m t).0) (run m t).1))
unfolding feed
feed-run m t h =
    let buffer = pending m ++ t in
    rw (not-ltb max_frame_bytes (length buffer) (omega (arith, length-append (pending m) t))) (
      feed_from-run (length buffer + 1) (record (parser_of m) { buffer = buffer }) 0 m t
        (append_assoc m.lines m.line t) refl (length-append m.lines m.line) (omega arith))

-- The states that a parser can be in: those that hold what some machine holds.
abbrev pub IsValid : Parser → Type 0
IsValid p = (m : Machine) × (p ≡ parser_of m)

-- A new parser is valid, and `feed` and `finish` keep a parser valid, whatever the bytes: also past
-- the limit and after an error.
pub fresh-IsValid : IsValid fresh
fresh-IsValid = (start, refl)
