-- ===== src/Upstream/Bodies.antt =====
-- Bodies read whole: `UpstreamResponse::body_bytes` of src/upstream/client.rs and `read_all` of
-- src/server/buffered.rs, over the items that the stream yields.
mod Tests
use anthroxy.Prelude.{
  ℕ, ◌+◌, ◌*◌, ◌≤◌, ◌≡◌, ◌∙◌, ap, refl, true, false, List, [], ◌∷◌, ◌++◌, map, if◌then◌else◌, ltb,
  length, Text, Result, ok, err, arith, append-nil, append_assoc, length-append, Bool-cases, inl,
  inr,
}
use anthroxy.Upstream.Send.{TimeoutClock}

-- `MAX_WHOLE_BODY_BYTES` and `MAX_BUFFERED_BYTES`, which are the same.
abbrev pub max_whole_body_bytes : ℕ
max_whole_body_bytes = 16 * 1024 * 1024

abbrev pub max_buffered_bytes : ℕ
max_buffered_bytes = 16 * 1024 * 1024

pub data BodyError : Type 0 where
  timed_out : TimeoutClock → BodyError
  upstream : Text → BodyError
  body_too_large : ℕ → BodyError

-- `body_bytes`: `out` is what was read before; the list ends where the stream does.
unfoldable pub body_bytes_from : List (Result BodyError Text) → Text → Result BodyError Text
body_bytes_from [] out = ok out
body_bytes_from (err e ∷ items) out = err e
body_bytes_from (ok chunk ∷ items) out =
    let rest = body_bytes_from items (out ++ chunk) in
    if ltb max_whole_body_bytes (length out + length chunk)
    then err (body_too_large max_whole_body_bytes)
    else rest

unfoldable pub body_bytes : List (Result BodyError Text) → Result BodyError Text
unfolding body_bytes_from
body_bytes items = body_bytes_from items []

-- What `read_all` fails with.
pub data UpstreamError : Type 0 where
  whole_too_large : ℕ → UpstreamError
  body : Text → UpstreamError
  clock_ran_out : TimeoutClock → UpstreamError

abbrev pub as_upstream : BodyError → UpstreamError
as_upstream (upstream source) = body source
as_upstream (timed_out clock) = clock_ran_out clock
as_upstream (body_too_large limit) = whole_too_large limit

-- The loop of `read_all`.
unfoldable pub read_from : List (Result BodyError Text) → Text → Result UpstreamError Text
read_from [] out = ok out
read_from (err e ∷ items) out = err (as_upstream e)
read_from (ok chunk ∷ items) out =
    let rest = read_from items (out ++ chunk) in
    if ltb max_buffered_bytes (length out + length chunk)
    then err (whole_too_large max_buffered_bytes)
    else rest

-- What the recorder is told: the body, or that the upstream failed.
pub data Recorded : Type 0 where
  finished_with : Text → Recorded
  upstream_failed : UpstreamError → Recorded

abbrev settle : Result UpstreamError Text → Result UpstreamError Text × Recorded
settle (ok raw) = (ok raw, finished_with raw)
settle (err e) = (err e, upstream_failed e)

-- `read_all`, with a recorder.
unfoldable pub read_all : List (Result BodyError Text) → Result UpstreamError Text × Recorded
unfolding read_from
read_all items = settle (read_from items [])

-- The chunks as one.
abbrev concat : List Text → Text
concat [] = []
concat (c ∷ cs) = c ++ concat cs

read_from-chunks :
    (cs : List Text) (out : Text)
    → length out ≤ max_buffered_bytes
    → read_from (map ok cs) out ≡ (
        if ltb max_buffered_bytes (length out + length (concat cs))
        then err (whole_too_large max_buffered_bytes)
        else ok (out ++ concat cs))
unfolding read_from
read_from-chunks [] out h =
    let fits : ltb max_buffered_bytes (length out + 0) ≡ false = ground arith in
    rw (fits, append-nil out) refl
read_from-chunks (c ∷ cs) out h =
    let long : length (c ++ concat cs) ≡ length c + length (concat cs) =
      length-append c (concat cs) in
    elim (Bool-cases (ltb max_buffered_bytes (length out + length c))) [
      | inl over ↦
          let too_long : ltb max_buffered_bytes (length out + length (concat (c ∷ cs))) ≡ true =
            ground (arith, over, long) in
          rw (over, too_long) refl
      | inr under ↦
          let longer : length (out ++ c) ≡ length out + length c = length-append out c in
          let room : length (out ++ c) ≤ max_buffered_bytes = ground (arith, under, longer) in
          let same : length (out ++ c) + length (concat cs)
              ≡ length out + length (concat (c ∷ cs)) =
            omega (arith, long, longer) in
          rw under
            (read_from-chunks cs (out ++ c) room ∙ rw (same, append_assoc out c (concat cs)) refl)
    ]

-- A body that ends is returned whole and recorded as such when it is within the limit, however it
-- was cut into chunks, and is refused as too large when it is not.
pub read_all-chunks :
    (cs : List Text)
    → read_all (map ok cs) ≡ (
        if ltb max_buffered_bytes (length (concat cs))
        then (
          err (whole_too_large max_buffered_bytes),
          upstream_failed (whole_too_large max_buffered_bytes),
        )
        else (ok (concat cs), finished_with (concat cs)))
unfolding read_all
read_all-chunks cs =
    let all : 0 + length (concat cs) ≡ length (concat cs) = omega arith in
    elim (Bool-cases (ltb max_buffered_bytes (length (concat cs)))) [
      | inl over ↦ rw (read_all, read_from-chunks cs [] (omega arith), all, over) refl
      | inr under ↦ rw (read_all, read_from-chunks cs [] (omega arith), all, under) refl
    ]

abbrev pub from_body : Result BodyError Text → Result UpstreamError Text
from_body (ok raw) = ok raw
from_body (err e) = err (as_upstream e)

from_body-from :
    (items : List (Result BodyError Text)) (out : Text)
    → from_body (body_bytes_from items out) ≡ read_from items out
unfolding body_bytes_from read_from
from_body-from [] out = refl
from_body-from (err e ∷ items) out = refl
from_body-from (ok chunk ∷ items) out =
    elim (Bool-cases (ltb max_buffered_bytes (length out + length chunk))) [
      | inl over ↦ rw over refl
      | inr under ↦ rw under (from_body-from items (out ++ chunk))
    ]

-- The two ways to read a body whole read the same bytes and fail for the same reasons, whatever
-- the stream yields.
pub body_bytes-read_all :
    (items : List (Result BodyError Text)) → from_body (body_bytes items) ≡ (read_all items).0
unfolding read_all body_bytes
body_bytes-read_all items = from_body-from items [] ∙ settled (read_from items [])
  where
    settled : (r : Result UpstreamError Text) → r ≡ (settle r).0
    settled (ok raw) = refl
    settled (err e) = refl
