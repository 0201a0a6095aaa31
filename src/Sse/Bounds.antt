-- ===== src/Sse/Bounds.antt =====
-- What the parser of src/sse/parser.rs keeps between calls.
use anthroxy.Prelude.{
  ℕ, ◌+◌, ◌≤◌, ◌<◌, ◌≡◌, ap, inl, inr, Bool-cases, List, [], ◌∷◌, ◌++◌, length, Text, arith,
  length-append, Result, ok, err, ltb, ◌==◌, is_empty,
}
use anthroxy.Sse.{Parser, Frame, SseError, fresh, feed, max_frame_bytes, newline, strip_cr}
use anthroxy.Sse.Machine.{Machine, start, step, run, step-byte, step-line, step-blank}
use anthroxy.Sse.Lines.{pending}
use anthroxy.Sse.Feeding.{IsValid, collect, after, feed-run}

feed-too_large :
    (p : Parser) (chunk : Text)
    → max_frame_bytes < length (p.buffer ++ chunk)
    → (feed p chunk).1 ≡ fresh
unfolding feed
feed-too_large p chunk h = ground arith

-- A new parser holds no bytes, and `feed` keeps a parser valid, also past the limit and after an
-- error.
pub feed-IsValid : (p : Parser) (chunk : Text) → IsValid p → IsValid (feed p chunk).1
feed-IsValid p chunk (m, e) = elim (Bool-cases (ltb max_frame_bytes (length (p.buffer ++ chunk)))) [
  | inl over ↦ (start, feed-too_large p chunk (ground arith))
  | inr under ↦ (
    after (collect (run m chunk).0) (run m chunk).1,
    rw e (ap (λ r. r.1) (feed-run m chunk (ground (arith, length-append p.buffer chunk, e)))),
  )
]

step-length : (m : Machine) (b : ℕ) → length (pending (step m b).1) ≤ length (pending m) + 1
step-length m b = elim (Bool-cases (b == newline)) [
  | inr same ↦ rw (step-byte m b same) (
      omega (
        arith,
        length-append m.lines m.line,
        length-append m.line (b ∷ []),
        length-append m.lines (m.line ++ b ∷ []),
      ))
  | inl at_newline ↦ elim (Bool-cases (is_empty (strip_cr m.line))) [
    | inl blank ↦ rw (step-blank m b at_newline blank) (omega arith)
    | inr more ↦ rw (step-line m b at_newline more) (
        omega (
          arith,
          length-append m.lines m.line,
          length-append m.line (newline ∷ []),
          length-append m.lines (m.line ++ newline ∷ []),
          length-append (m.lines ++ (m.line ++ newline ∷ [])) [],
        ))
  ]
]

run-length : (m : Machine) (t : Text) → length (pending (run m t).1) ≤ length (pending m) + length t
unfolding run
run-length m [] = omega arith
run-length m (b ∷ t) = omega (arith, step-length m b, run-length (step m b).1 t)

after-length :
    (r : Result SseError (List Frame)) (m : Machine)
    → length (pending (after r m)) ≤ length (pending m)
after-length (ok fs) m = omega arith
after-length (err e) m = omega arith

-- Between calls a valid parser never holds more than the limit, whatever the chunk and its outcome.
pub buffer-feed_bounded :
    (p : Parser) (chunk : Text) → IsValid p → length (feed p chunk).1.buffer ≤ max_frame_bytes
buffer-feed_bounded p chunk (m, e) =
    elim (Bool-cases (ltb max_frame_bytes (length (p.buffer ++ chunk)))) [
      | inl over ↦ rw (feed-too_large p chunk (ground arith)) (omega arith)
      | inr under ↦ rw e (
          rw (feed-run m chunk (ground (arith, length-append p.buffer chunk, e)))
            (bounded (ground (arith, length-append p.buffer chunk, e))))
    ]
  where
    bounded :
        length (pending m) + length chunk ≤ max_frame_bytes
        → length (pending (after (collect (run m chunk).0) (run m chunk).1)) ≤ max_frame_bytes
    bounded h =
        omega (arith, after-length (collect (run m chunk).0) (run m chunk).1, run-length m chunk)
