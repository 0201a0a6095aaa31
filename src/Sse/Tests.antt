-- ===== src/Sse/Tests.antt =====
-- Runs of the parser on the inputs of src/sse/tests.rs.
use anthroxy.Prelude.{
  ◌≡◌, refl, [], ◌∷◌, ◌++◌, Text, ascii, ok, err, position, join, split_on, strip_prefix, List, ◌≤◌,
  arith, length,
}
use mathlib.Core.List.{flatten}
use anthroxy.Sse.Machine.{start, run}
use anthroxy.Sse.Feeding.{parser_of, after, collect, feed-run, fresh-IsValid}
use anthroxy.Sse.Chunks.{feed_all, feed_all-rechunk}
use anthroxy.Sse.Bounds.{buffer-feed_bounded}
use anthroxy.Sse.{max_frame_bytes, Frame, utf8, fresh, feed, finish}

abbrev frame : Text → Frame
frame t = record { payload = t }

crlf :
    (feed fresh (ascii "event: ping\r\ndata: 1\r\n\r\ndata: 2\n\r\n")).0
    ≡ ok (frame (ascii "1") ∷ frame (ascii "2") ∷ [])
unfolding feed position join split_on strip_prefix
crlf = refl

joined :
    (feed fresh (ascii ": keep-alive\nid: 7\ndata: a\ndata:b\ndata: \n\n")).0
    ≡ ok (frame (ascii "a\nb\n") ∷ [])
unfolding feed position join split_on strip_prefix
joined = refl

bad_bytes : feed fresh (ascii "data: " ++ 0xff ∷ 10 ∷ 10 ∷ []) ≡ (err utf8, fresh)
unfolding feed position join split_on strip_prefix
bad_bytes = refl

tail : (finish (feed fresh (ascii "data: tail")).1).0 ≡ ok (frame (ascii "tail") ∷ [])
unfolding feed finish position join split_on strip_prefix
tail = refl

abbrev one_byte : List Text
one_byte = ascii "data: 1\n" ∷ ascii "\n" ∷ ascii "data: 2" ∷ ascii "\n\n" ∷ []

feed_all-rechunk_example :
    feed_all fresh one_byte ≡ feed_all fresh (ascii "data: 1\n\ndata: 2\n\n" ∷ [])
unfolding feed position join split_on strip_prefix flatten
feed_all-rechunk_example =
    feed_all-rechunk fresh one_byte (ascii "data: 1\n\ndata: 2\n\n" ∷ []) (start, refl) refl
      (omega arith) (omega arith)

feed-run_example : feed (parser_of start) (ascii "data: x\n\ndata") ≡ (
  collect (run start (ascii "data: x\n\ndata")).0,
  parser_of (
      after
        (collect (run start (ascii "data: x\n\ndata")).0)
        (run start (ascii "data: x\n\ndata")).1),
)
feed-run_example = feed-run start (ascii "data: x\n\ndata") (omega arith)

buffer-feed_bounded_example : length (feed fresh (ascii "data: 1")).1.buffer ≤ max_frame_bytes
buffer-feed_bounded_example = buffer-feed_bounded fresh (ascii "data: 1") fresh-IsValid
