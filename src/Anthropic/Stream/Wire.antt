-- ===== src/Anthropic/Stream/Wire.antt =====
-- The bytes that `frame` of src/anthropic/stream.rs writes, read by the parser of src/sse/parser.rs.
-- The name of an event and the text of its data, as the JSON crate prints it, are given.
mod Tests
use mathlib.Core.List.{flatten}
use anthroxy.Prelude.{
  ◌≡◌, refl, sym, ◌∙◌, ap, ◌==◌, Bool, true, false, not, some, none, List, [], ◌∷◌, ◌++◌,
  append_assoc, append-nil, map, is_empty, Text, ascii, Result, ok, err, All, IsFreeOf, split_on,
  split_on-append, split_on-free, join, strip_prefix, is_utf8, map_ok, arith,
}
use anthroxy.Sse.{Frame, newline, strip_cr, fresh, parse_frame, data_value, data_values}
use anthroxy.Sse.Machine.{
  Machine, start, step, run, run-append, run-nil, run-frame, run-quiet, step-byte, step-line,
  step-blank,
}
use anthroxy.Sse.Feeding.{collect, collect_next}
use anthroxy.Sse.Chunks.{feed_all, Fits, feed_all-run}

-- `frame`, without the blank line that ends it, and with it.
unfoldable pub frame_lines : Text → Text → Text
frame_lines event data_text =
    (ascii "event: " ++ event) ++ (newline ∷ ((ascii "data: " ++ data_text) ++ (newline ∷ [])))

unfoldable pub frame : Text → Text → Text
unfolding frame_lines
frame event data_text = frame_lines event data_text ++ (newline ∷ [])

unfoldable pub frames_text : List (Text × Text) → Text
unfolding frame
frames_text [] = []
frames_text ((event, data_text) ∷ more) = frame event data_text ++ frames_text more

-- No line break in the name or in the data, which is not empty, and both are UTF-8.
unfoldable pub IsWritten : Text × Text → Type 0
IsWritten (event, data_text) =
    IsFreeOf newline event
    × IsFreeOf newline data_text
    × IsFreeOf 13 data_text
    × (is_empty data_text ≡ false)
    × (is_utf8 (frame_lines event data_text) ≡ true)

strip_cr-free : (t : Text) → IsFreeOf 13 t → strip_cr t ≡ t
unfolding strip_cr
strip_cr-free [] f = refl
strip_cr-free (b ∷ []) f = ground (arith, f)
strip_cr-free (b ∷ c ∷ t) f = ap (λ s. b ∷ s) (strip_cr-free (c ∷ t) (ground (arith, f)))

-- Bytes within a line.
run-free :
    (m : Machine) (t rest : Text)
    → IsFreeOf newline t
    → run m (t ++ rest) ≡ run (record m { line = m.line ++ t }) rest
run-free m [] rest f = ap (λ l. run (record m { line = l }) rest) (sym (append-nil m.line))
run-free m (b ∷ t) rest f =
    run-quiet m b (record m { line = m.line ++ b ∷ [] }) (t ++ rest)
      (step-byte m b (ground (arith, f)))
    ∙ run-free (record m { line = m.line ++ b ∷ [] }) t rest (ground (arith, f))
    ∙ ap (λ l. run (record m { line = l }) rest) (append_assoc m.line (b ∷ []) t)

-- A line of two bytes and more, with its end.
run-line :
    (lines line rest : Text)
    → IsFreeOf newline line
    → is_empty (strip_cr line) ≡ false
    → run (record { lines = lines; line = [] }) (line ++ newline ∷ rest)
      ≡ run (record { lines = lines ++ (line ++ newline ∷ []); line = [] }) rest
run-line lines line rest f more =
    run-free (record { lines = lines; line = [] }) line (newline ∷ rest) f
    ∙ run-quiet (record { lines = lines; line = line }) newline
        (record { lines = lines ++ (line ++ newline ∷ []); line = [] }) rest
        (step-line (record { lines = lines; line = line }) newline refl more)

split_on-frame_lines :
    (event data_text : Text)
    → IsFreeOf newline event
    → IsFreeOf newline data_text
    → split_on newline (frame_lines event data_text)
      ≡ (ascii "event: " ++ event) ∷ (ascii "data: " ++ data_text) ∷ [] ∷ []
unfolding frame_lines split_on
split_on-frame_lines event data_text e d =
    split_on-append newline (ascii "event: " ++ event)
      ((ascii "data: " ++ data_text) ++ (newline ∷ [])) e
    ∙ ap (λ ls. (ascii "event: " ++ event) ∷ ls)
        (split_on-append newline (ascii "data: " ++ data_text) [] d)

data_values-lines :
    (event data_text : Text)
    → IsFreeOf 13 data_text
    → data_values ((ascii "event: " ++ event) ∷ (ascii "data: " ++ data_text) ∷ [] ∷ [])
      ≡ data_text ∷ []
unfolding data_values strip_prefix
data_values-lines event data_text cr = simp (strip_cr-free (32 ∷ data_text) cr) refl

parse_frame-lines :
    (event data_text : Text)
    → IsWritten (event, data_text)
    → parse_frame (frame_lines event data_text) ≡ ok (some (record { payload = data_text }))
unfolding parse_frame IsWritten join
parse_frame-lines event data_text (e, d, cr, some_d, valid) =
    let values : data_values (split_on newline (frame_lines event data_text)) ≡ data_text ∷ [] =
      ap data_values (split_on-frame_lines event data_text e d)
      ∙ data_values-lines event data_text cr in
    simp (values, valid, some_d, parse_frame) refl

run-written :
    (event data_text rest : Text)
    → IsWritten (event, data_text)
    → run start (frame event data_text ++ rest)
      ≡ (frame_lines event data_text ∷ (run start rest).0, (run start rest).1)
unfolding frame IsWritten frame_lines strip_cr
run-written event data_text rest (e, d, cr, some_d, valid) =
    let first = ascii "event: " ++ event in
    let second = ascii "data: " ++ data_text in
    let both : (first ++ (newline ∷ [])) ++ (second ++ (newline ∷ []))
        ≡ frame_lines event data_text =
      append_assoc first (newline ∷ []) (second ++ (newline ∷ [])) in
    let flat : frame event data_text ++ rest
        ≡ first ++ newline ∷ (second ++ newline ∷ (newline ∷ rest)) =
      append_assoc (frame_lines event data_text) (newline ∷ []) rest
      ∙ append_assoc first (newline ∷ (second ++ (newline ∷ []))) (newline ∷ rest)
      ∙ ap (λ t. first ++ newline ∷ t) (append_assoc second (newline ∷ []) (newline ∷ rest)) in
    ap (run start) flat
    ∙ run-line [] first (second ++ newline ∷ (newline ∷ rest)) e refl
    ∙ run-line (first ++ (newline ∷ [])) second (newline ∷ rest) d refl
    ∙ run-frame
        (record { lines = (first ++ (newline ∷ [])) ++ (second ++ (newline ∷ [])); line = [] })
        newline rest (frame_lines event data_text)
        (step-blank
            (record { lines = (first ++ (newline ∷ [])) ++ (second ++ (newline ∷ [])); line = [] })
            newline refl refl
          ∙ ap (λ l. (l ∷ [], start)) both)

abbrev pub payload_of : Text × Text → Frame
payload_of (event, data_text) = record { payload = data_text }

collect-frames_text :
    (fs : List (Text × Text))
    → All IsWritten fs
    → collect (run start (frames_text fs)).0 ≡ ok (map payload_of fs)
unfolding frames_text collect
collect-frames_text [] w = ap (λ r. collect r.0) (run-nil start)
collect-frames_text ((event, data_text) ∷ fs) w =
    ap (λ r. collect r.0) (run-written event data_text (frames_text fs) w.0)
    ∙ ap (λ r. collect_next r (collect (run start (frames_text fs)).0))
        (parse_frame-lines event data_text w.0)
    ∙ ap (λ r. collect_next (ok (some (payload_of (event, data_text)))) r)
        (collect-frames_text fs w.1)

-- However the bytes that `frame` wrote are cut, each chunk within the pending limit, the parser reads
-- back the data of each frame, in order, when every name and data has no line break, no data is empty
-- and the bytes are UTF-8.
pub feed_all-frames_text :
    (fs : List (Text × Text)) (chunks : List Text)
    → All IsWritten fs
    → flatten chunks ≡ frames_text fs
    → Fits fresh chunks
    → feed_all fresh chunks ≡ ok (map payload_of fs)
feed_all-frames_text fs chunks w same fits =
    feed_all-run start chunks fits
    ∙ ap (λ t. collect (run start t).0) same
    ∙ collect-frames_text fs w
