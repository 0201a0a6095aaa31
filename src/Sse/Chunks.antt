-- ===== src/Sse/Chunks.antt =====
-- The parser of src/sse/parser.rs over a whole body: what it finds does not depend on where the
-- transport cut the body into chunks.
use mathlib.Core.List.{flatten}
use mathlib.Core.Path.{subst}
use anthroxy.Prelude.{
  ◌+◌, ◌≤◌, ◌≡◌, refl, sym, ap, ◌∙◌, inl, inr, List, [], ◌∷◌, ◌++◌, length, Text, Result, ok, err,
  Option, some, none, map_ok, Result-cases,
}
use anthroxy.Sse.{Parser, Frame, SseError, fresh, feed, parse_frame, max_frame_bytes}
use anthroxy.Sse.Machine.{Machine, run, run-append, run-nil}
use anthroxy.Sse.Feeding.{IsValid, parser_of, collect, collect_next, after, feed-run}

-- The frames of two parts of a body, or the first error.
abbrev pub then_result :
    Result SseError (List Frame) → Result SseError (List Frame) → Result SseError (List Frame)
then_result (ok fs) r = map_ok (λ gs. fs ++ gs) r
then_result (err e) r = err e

-- A caller's loop over the chunks of a body, up to the first error.
unfoldable pub feed_all : Parser → List Text → Result SseError (List Frame)
feed_all p [] = ok []
feed_all p (chunk ∷ chunks) =
    let rest = feed_all (feed p chunk).1 chunks in then_result (feed p chunk).0 rest

-- No chunk takes the pending bytes past the limit.
abbrev pub Fits : Parser → List Text → Type 0
Fits p [] = Unit
Fits p (chunk ∷ chunks) =
    (length p.buffer + length chunk ≤ max_frame_bytes) × Fits (feed p chunk).1 chunks

collect_next-then_result :
    (r : Result SseError (Option Frame)) (s t : Result SseError (List Frame))
    → collect_next r (then_result s t) ≡ then_result (collect_next r s) t
collect_next-then_result (err e) s t = refl
collect_next-then_result (ok none) s t = refl
collect_next-then_result (ok (some f)) (ok fs) (ok gs) = refl
collect_next-then_result (ok (some f)) (ok fs) (err e) = refl
collect_next-then_result (ok (some f)) (err e) t = refl

then_result-nil : (r : Result SseError (List Frame)) → then_result (ok []) r ≡ r
then_result-nil (ok fs) = refl
then_result-nil (err e) = refl

pub collect-append :
    (xs ys : List Text) → collect (xs ++ ys) ≡ then_result (collect xs) (collect ys)
unfolding collect
collect-append [] ys = sym (then_result-nil (collect ys))
collect-append (x ∷ xs) ys =
    rw (collect-append xs ys) (collect_next-then_result (parse_frame x) (collect xs) (collect ys))

pub feed_all-run :
    (m : Machine) (chunks : List Text)
    → Fits (parser_of m) chunks
    → feed_all (parser_of m) chunks ≡ collect (run m (flatten chunks)).0
unfolding feed_all flatten collect
feed_all-run m [] h = rw run-nil
feed_all-run m (chunk ∷ chunks) h =
    let fed = feed-run m chunk h.0 in
    let m' = (run m chunk).1 in
    rw (run-append m chunk (flatten chunks), collect-append)
      (elim (Result-cases (collect (run m chunk).0)) [
        | inl (fs, e) ↦
            let same : feed (parser_of m) chunk ≡ (ok fs, parser_of m') =
              fed ∙ ap (λ r. (r, parser_of (after r m'))) e in
            let fits : Fits (parser_of m') chunks = subst (λ r. Fits r.1 chunks) same h.1 in
            rw (same, e, feed_all-run m' chunks fits)
        | inr (x, e) ↦
            let same : feed (parser_of m) chunk ≡ (err x, fresh) =
              fed ∙ ap (λ r. (r, parser_of (after r m'))) e in
            rw (same, e)
      ])

-- However a body is cut into chunks, a valid parser finds the same frames, or the same error, as
-- long as no chunk takes the pending bytes past the limit.
pub feed_all-rechunk :
    (p : Parser) (cs ds : List Text)
    → IsValid p
    → flatten cs ≡ flatten ds
    → Fits p cs
    → Fits p ds
    → feed_all p cs ≡ feed_all p ds
feed_all-rechunk p cs ds (m, e) same hc hd = rw e (
    feed_all-run m cs (rw e at hc)
    ∙ ap (λ t. collect (run m t).0) same
    ∙ sym (feed_all-run m ds (rw e at hd)))
