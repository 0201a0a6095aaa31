-- ===== src/Anthropic/Usage/Chunks.antt =====
-- What src/anthropic/usage.rs finds in a body does not depend on where the body was cut into chunks.
use mathlib.Core.List.{flatten}
use mathlib.Core.Path.{subst}
use anthroxy.Prelude.{
  ◌+◌, ◌≤◌, ◌<◌, ◌≡◌, refl, sym, ap, ◌∙◌, inl, inr, true, Option, none, some, List, [], ◌∷◌, ◌++◌,
  append_assoc, append-nil, length, length-append, ltb, not-ltb, lt→ltb, if◌then◌else◌, Text,
  Result, ok, err, Bool-cases, arith,
}
use native.Mathlib.Decide.{dec_le}
use anthroxy.Json.{Json}
use anthroxy.Sse.{Frame, SseError, fresh, feed, max_frame_bytes}
use anthroxy.Sse.Machine.{Machine, start, run, run-append, run-nil}
use anthroxy.Sse.Feeding.{parser_of, after, collect, feed-run}
use anthroxy.Sse.Chunks.{then_result, collect-append, feed_all, feed_all-run, Fits}
use anthroxy.Anthropic.Usage.{
  Scan, nothing_found, max_document_bytes, events, document, UsageScanner, is_events,
  for_content_type, frames, fed_events, feed_body, finish_body,
}

-- The chunks of an event stream are within the parser's limit, and their frames well formed.
pub record IsReadable (cs ds : List Text) : Type 0 where
  pub fits : Fits fresh cs
  pub fits_too : Fits fresh ds
  pub read : List Frame
  pub well_formed : feed_all fresh cs ≡ ok read

module _ (j : Json) where
  -- A body's chunks fed in order.
  unfoldable pub feed_chunks : UsageScanner → List Text → UsageScanner
  unfolding feed_body
  feed_chunks s [] = s
  feed_chunks s (chunk ∷ chunks) = feed_chunks (feed_body j s.body s.found chunk) chunks

  -- What is found in a whole body.
  unfoldable pub scan : Option Text → List Text → Scan
  unfolding feed_chunks finish_body for_content_type
  scan content_type chunks =
      let s = feed_chunks (for_content_type content_type) chunks in finish_body j s.body s.found

  frames-append :
      (fs gs : List Frame) (s : Scan) → frames j (fs ++ gs) s ≡ frames j gs (frames j fs s)
  unfolding frames
  frames-append [] gs s = refl
  frames-append (f ∷ fs) gs s = frames-append fs gs _

  abbrev reading : Machine → Scan → UsageScanner
  reading m s = record { body = events (parser_of m); found = s }

  nothing-frames : (m : Machine) (s : Scan) → reading m s ≡ reading m (frames j [] s)
  unfolding frames
  nothing-frames m s = refl

  -- A chunk of well-formed frames.
  feed-ok :
      (m : Machine) (chunk : Text) (fs : List Frame)
      → length (parser_of m).buffer + length chunk ≤ max_frame_bytes
      → collect (run m chunk).0 ≡ ok fs
      → feed (parser_of m) chunk ≡ (ok fs, parser_of (run m chunk).1)
  feed-ok m chunk fs h e = feed-run m chunk h ∙ ap (λ r. (r, parser_of (after r (run m chunk).1))) e

  feed_body-reading :
      (m : Machine) (s : Scan) (chunk : Text) (fs : List Frame)
      → feed (parser_of m) chunk ≡ (ok fs, parser_of (run m chunk).1)
      → feed_body j (events (parser_of m)) s chunk ≡ reading (run m chunk).1 (frames j fs s)
  unfolding feed_body
  feed_body-reading m s chunk fs fed = ap (λ r. fed_events j r s) fed

  then_result-ok :
      (r q : Result SseError (List Frame)) (fs : List Frame)
      → then_result r q ≡ ok fs
      → (gs : List Frame) × (hs : List Frame) × (r ≡ ok gs) × (q ≡ ok hs) × (gs ++ hs ≡ fs)
  then_result-ok (ok gs) (ok hs) fs e = (gs, hs, refl, refl, cc)
  then_result-ok (ok gs) (err x) fs e = cc
  then_result-ok (err x) q fs e = cc

  feed_chunks-reading :
      (m : Machine) (s : Scan) (chunks : List Text) (fs : List Frame)
      → Fits (parser_of m) chunks
      → collect (run m (flatten chunks)).0 ≡ ok fs
      → feed_chunks (reading m s) chunks ≡ reading (run m (flatten chunks)).1 (frames j fs s)
  unfolding feed_chunks flatten collect
  feed_chunks-reading m s [] fs h e =
      let none_read : collect [] ≡ ok fs = ap (λ r. collect r.0) (sym (run-nil m)) ∙ e in
      let no_frames : fs ≡ [] = cc in rw (no_frames, run-nil) (nothing-frames m s)
  feed_chunks-reading m s (chunk ∷ chunks) fs h e =
      let m' = (run m chunk).1 in
      let both = run-append m chunk (flatten chunks) in
      let (gs, hs, now, later, together) =
        then_result-ok (collect (run m chunk).0) (collect (run m' (flatten chunks)).0) fs (
          sym (collect-append (run m chunk).0 (run m' (flatten chunks)).0)
          ∙ ap (λ r. collect r.0) (sym both)
          ∙ e) in
      let fed = feed-ok m chunk gs h.0 now in
      let fits : Fits (parser_of m') chunks = subst (λ r. Fits r.1 chunks) fed h.1 in
      ap (λ u. feed_chunks u chunks) (feed_body-reading m s chunk gs fed)
      ∙ feed_chunks-reading m' (frames j gs s) chunks hs fits later
      ∙ rw (both, ← together, frames-append gs hs s) refl

  -- What was read when the body ends: well-formed frames only.
  feed_chunks-start :
      (s : Scan) (cs ds : List Text) (fs : List Frame)
      → flatten cs ≡ flatten ds
      → Fits fresh cs
      → Fits fresh ds
      → feed_all fresh cs ≡ ok fs
      → feed_chunks (reading start s) cs ≡ feed_chunks (reading start s) ds
  feed_chunks-start s cs ds fs same hc hd e =
      let read : collect (run start (flatten cs)).0 ≡ ok fs = sym (feed_all-run start cs hc) ∙ e in
      feed_chunks-reading start s cs fs hc read
      ∙ ap (λ t. reading (run start t).1 (frames j fs s)) same
      ∙ sym (
          feed_chunks-reading start s ds fs hd
            (ap (λ t. collect (run start t).0) (sym same) ∙ read))

  abbrev keeping : Option Text → Scan → UsageScanner
  keeping kept s = record { body = document kept; found = s }

  feed_chunks-none :
      (s : Scan) (chunks : List Text) → feed_chunks (keeping none s) chunks ≡ keeping none s
  unfolding feed_chunks
  feed_chunks-none s [] = refl
  feed_chunks-none s (chunk ∷ chunks) = feed_chunks-none s chunks

  -- A document is kept whole while it is within the limit.
  abbrev kept_of : Text → Option Text
  kept_of t = if ltb max_document_bytes (length t) then none else some t

  kept-within : (t : Text) → length t ≤ max_document_bytes → kept_of t ≡ some t
  kept-within t h = rw (not-ltb max_document_bytes (length t) h) refl

  kept-beyond : (t : Text) → max_document_bytes < length t → kept_of t ≡ none
  kept-beyond t h = rw (lt→ltb max_document_bytes (length t) h) refl

  feed_body-document :
      (s : Scan) (bytes chunk : Text)
      → feed_body j (document (some bytes)) s chunk ≡ keeping (kept_of (bytes ++ chunk)) s
  unfolding feed_body
  feed_body-document s bytes chunk = rw (length-append bytes chunk) refl

  feed_chunks-document :
      (s : Scan) (bytes : Text) (chunks : List Text)
      → length bytes ≤ max_document_bytes
      → feed_chunks (keeping (some bytes) s) chunks ≡ keeping (kept_of (bytes ++ flatten chunks)) s
  unfolding feed_chunks flatten
  feed_chunks-document s bytes [] h =
      rw (append-nil bytes) (ap (λ k. keeping k s) (sym (kept-within bytes h)))
  feed_chunks-document s bytes (chunk ∷ chunks) h =
      let all = bytes ++ (chunk ++ flatten chunks) in
      let first = ap (λ u. feed_chunks u chunks) (feed_body-document s bytes chunk) in
      elim (dec_le (length (bytes ++ chunk)) max_document_bytes) [
        | yes within ↦
            first
            ∙ ap (λ k. feed_chunks (keeping k s) chunks) (kept-within (bytes ++ chunk) within)
            ∙ feed_chunks-document s (bytes ++ chunk) chunks within
            ∙ ap (λ t. keeping (kept_of t) s) (append_assoc bytes chunk (flatten chunks))
        | no beyond ↦
            let over : max_document_bytes < length (bytes ++ chunk) = omega (arith, beyond) in
            let total : max_document_bytes < length all = omega (
              arith,
              over,
              length-append bytes chunk,
              length-append chunk (flatten chunks),
              length-append bytes (chunk ++ flatten chunks),
            ) in
            first
            ∙ ap (λ k. feed_chunks (keeping k s) chunks) (kept-beyond (bytes ++ chunk) over)
            ∙ feed_chunks-none s chunks
            ∙ ap (λ k. keeping k s) (sym (kept-beyond all total))
      ]

  -- However an answer is cut into chunks, the same usage, stop reason and error are found: of a
  -- document always, also when it outgrows the limit, of an event stream when it is readable.
  pub scan-rechunk :
      (content_type : Option Text) (cs ds : List Text)
      → flatten cs ≡ flatten ds
      → (is_events content_type ≡ true → IsReadable cs ds)
      → scan content_type cs ≡ scan content_type ds
  unfolding scan for_content_type
  scan-rechunk content_type cs ds same readable = elim (Bool-cases (is_events content_type)) [
    | inl stream ↦
        let r = readable stream in
        let fed =
          feed_chunks-start nothing_found cs ds r.read same r.fits r.fits_too r.well_formed in
        simp stream (ap (λ u. finish_body j u.body u.found) fed)
    | inr whole ↦
        let fed =
          feed_chunks-document nothing_found [] cs (omega arith)
          ∙ ap (λ t. keeping (kept_of t) nothing_found) same
          ∙ sym (feed_chunks-document nothing_found [] ds (omega arith)) in
        simp whole (ap (λ u. finish_body j u.body u.found) fed)
  ]
