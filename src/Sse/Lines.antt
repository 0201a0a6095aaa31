-- ===== src/Sse/Lines.antt =====
-- `frame_end` of src/sse/parser.rs finds by offsets the frame that the machine emits.
use anthroxy.Prelude.{
  ℕ, zero, suc, ◌+◌, ◌≤◌, ◌<◌, ◌==◌, ◌≡◌, refl, sym, ap, ◌∙◌, inl, inr, true, false, [], ◌∷◌, ◌++◌,
  if◌then◌else◌, is_empty, length, drop, slice, Text, append_assoc, append-nil, arith, position,
  length-append, drop-append_at, slice-append_at, Bool-cases, Option-cases, ==_iff, min, max,
}
use anthroxy.Sse.{found, open_at, frame_end_from, frame_end, newline, strip_cr}
use anthroxy.Sse.Machine.{
  Machine, start, run, run-nil, run-quiet, run-frame, step-byte, step-line, step-blank,
}
use native.Mathlib.Nat.{add-zero}

abbrev pub pending : Machine → Text
pending m = m.lines ++ m.line

-- How a text goes on from a machine: a first frame ends, or none does. `buf` is all that the
-- machine has of the frame, with the text behind it.
pub data Next (m : Machine) (t buf : Text) (from : ℕ) : Type 0 where
  frame :
      (raw sep rest : Text)
      → buf ≡ raw ++ (sep ++ rest)
      → 0 < length sep
      → run m t ≡ (raw ∷ (run start rest).0, (run start rest).1)
      → ((fuel : ℕ)
          → length t < fuel
          → frame_end_from fuel buf (length m.lines) from
            ≡ found (length raw) (length raw + length sep))
      → Next m t buf from
  open_line :
      (m' : Machine)
      → buf ≡ pending m'
      → run m t ≡ ([], m')
      → ((fuel : ℕ)
          → length t < fuel
          → frame_end_from fuel buf (length m.lines) from ≡ open_at (length m'.lines))
      → Next m t buf from

-- The bytes not searched yet.
rest_at :
    (m : Machine) (t buf : Text) (from : ℕ)
    → buf ≡ m.lines ++ (m.line ++ t)
    → from ≡ length m.lines + length m.line
    → drop from buf ≡ t
rest_at m t buf from e d =
    rw (e, ← append_assoc m.lines m.line t)
      (drop-append_at from (m.lines ++ m.line) t (omega (arith, d, length-append m.lines m.line)))

-- The line in front of a newline.
line_at :
    (m : Machine) (t buf : Text) (from : ℕ)
    → buf ≡ m.lines ++ (m.line ++ t)
    → from ≡ length m.lines + length m.line
    → slice (length m.lines) from buf ≡ m.line
line_at m t buf from e d = rw e (slice-append_at (length m.lines) from m.lines m.line t refl d)

-- Searching from a byte that is no newline is searching from the next.
frame_end_from-skip :
    (fuel : ℕ) (buf : Text) (s from : ℕ) (b : ℕ) (t : Text)
    → drop from buf ≡ b ∷ t
    → drop (from + 1) buf ≡ t
    → (b == newline) ≡ false
    → frame_end_from fuel buf s from ≡ frame_end_from fuel buf s (from + 1)
unfolding frame_end_from position
frame_end_from-skip zero buf s from b t e e' ne = refl
frame_end_from-skip (suc fuel) buf s from b t e e' ne =
    let shift : (n : ℕ) → from + suc n ≡ from + 1 + n = λ n. omega arith in
    rw (e, e', ne)
      (elim (Option-cases (position newline t)) [
        | inl no_line ↦ rw no_line
        | inr (len, at) ↦ rw (at, shift len)
      ])

-- At a newline, one round tests the line before it.
frame_end_from-newline :
    (fuel : ℕ) (buf : Text) (s from : ℕ) (b : ℕ) (t line : Text)
    → drop from buf ≡ b ∷ t
    → slice s from buf ≡ line
    → (b == newline) ≡ true
    → frame_end_from (suc fuel) buf s from ≡ (
        if is_empty (strip_cr line)
        then found s (from + 1)
        else frame_end_from fuel buf (from + 1) (from + 1))
unfolding frame_end_from position
frame_end_from-newline fuel buf s from b t line e l h =
    let here : from + 0 ≡ from = omega arith in rw (e, h, here, l)

module _ (m : Machine) (b : ℕ) (t buf : Text) (from : ℕ) (e : buf ≡ m.lines ++ (m.line ++ b ∷ t))
    (d : from ≡ length m.lines + length m.line) where
  grown : buf ≡ m.lines ++ ((m.line ++ b ∷ []) ++ t)
  grown = e ∙ ap (λ l. m.lines ++ l) (sym (append_assoc m.line (b ∷ []) t))

  grown_at : from + 1 ≡ length m.lines + length (m.line ++ b ∷ [])
  grown_at = omega (arith, d, length-append m.line (b ∷ []))

  after_byte : drop (from + 1) buf ≡ t
  after_byte = rest_at (record m { line = m.line ++ b ∷ [] }) t buf (from + 1) grown grown_at

  next-byte :
      (b == newline) ≡ false
      → Next (record m { line = m.line ++ b ∷ [] }) t buf (from + 1)
      → Next m (b ∷ t) buf from
  next-byte h (frame raw sep rest at pos runs finds) =
      frame raw sep rest at pos (run-quiet m b _ t (step-byte m b h) ∙ runs) λ fuel k.
        frame_end_from-skip fuel buf (length m.lines) from b t (rest_at m (b ∷ t) buf from e d)
          after_byte h
        ∙ finds fuel (omega arith)
  next-byte h (open_line m' at runs finds) =
      open_line m' at (run-quiet m b _ t (step-byte m b h) ∙ runs) λ fuel k.
        frame_end_from-skip fuel buf (length m.lines) from b t (rest_at m (b ∷ t) buf from e d)
          after_byte h
        ∙ finds fuel (omega arith)

  -- A round at a newline, with the line before it named.
  round :
      (fuel : ℕ)
      → (b == newline) ≡ true
      → frame_end_from (suc fuel) buf (length m.lines) from ≡ (
          if is_empty (strip_cr m.line)
          then found (length m.lines) (from + 1)
          else frame_end_from fuel buf (from + 1) (from + 1))
  round fuel h =
      frame_end_from-newline fuel buf (length m.lines) from b t m.line
        (rest_at m (b ∷ t) buf from e d) (line_at m (b ∷ t) buf from e d) h

  next-blank : (b == newline) ≡ true → is_empty (strip_cr m.line) ≡ true → Next m (b ∷ t) buf from
  next-blank h k =
      frame m.lines (m.line ++ b ∷ []) t grown (omega (arith, length-append m.line (b ∷ [])))
        (run-frame m b t m.lines (step-blank m b h k)) ends
    where
      ends :
          (fuel : ℕ)
          → length (b ∷ t) < fuel
          → frame_end_from fuel buf (length m.lines) from
            ≡ found (length m.lines) (length m.lines + length (m.line ++ b ∷ []))
      ends zero j = absurd (omega arith)
      ends (suc fuel) j = round fuel h ∙ rw (k, grown_at)

  abbrev lined : Machine
  lined = record { lines = m.lines ++ (m.line ++ newline ∷ []); line = [] }

  lined_at : from + 1 ≡ length lined.lines
  lined_at = omega (
    arith,
    d,
    length-append m.lines (m.line ++ newline ∷ []),
    length-append m.line (newline ∷ []),
  )

  grown_line : (b == newline) ≡ true → buf ≡ lined.lines ++ ([] ++ t)
  grown_line h =
      let at_newline : b ≡ newline = (==_iff b newline).0 h in
      rw (← at_newline) (grown ∙ sym (append_assoc m.lines (m.line ++ b ∷ []) t))

  round_line :
      (fuel : ℕ)
      → (b == newline) ≡ true
      → is_empty (strip_cr m.line) ≡ false
      → frame_end_from (suc fuel) buf (length m.lines) from
        ≡ frame_end_from fuel buf (length lined.lines) (from + 1)
  round_line fuel h k =
      round fuel h ∙ rw k (ap (λ s. frame_end_from fuel buf s (from + 1)) lined_at)

  next-line :
      (b == newline) ≡ true
      → is_empty (strip_cr m.line) ≡ false
      → Next lined t buf (from + 1)
      → Next m (b ∷ t) buf from
  next-line h k (frame raw sep rest at pos runs finds) =
      frame raw sep rest at pos (run-quiet m b _ t (step-line m b h k) ∙ runs) ends
    where
      ends :
          (fuel : ℕ)
          → length (b ∷ t) < fuel
          → frame_end_from fuel buf (length m.lines) from
            ≡ found (length raw) (length raw + length sep)
      ends zero j = absurd (omega arith)
      ends (suc fuel) j = round_line fuel h k ∙ finds fuel (omega arith)
  next-line h k (open_line m' at runs finds) =
      open_line m' at (run-quiet m b _ t (step-line m b h k) ∙ runs) ends
    where
      ends :
          (fuel : ℕ)
          → length (b ∷ t) < fuel
          → frame_end_from fuel buf (length m.lines) from ≡ open_at (length m'.lines)
      ends zero j = absurd (omega arith)
      ends (suc fuel) j = round_line fuel h k ∙ finds fuel (omega arith)

-- Past the last byte nothing is found.
frame_end_from-end :
    (fuel : ℕ) (buf : Text) (s from : ℕ)
    → drop from buf ≡ []
    → frame_end_from fuel buf s from ≡ open_at s
unfolding frame_end_from position
frame_end_from-end zero buf s from e = refl
frame_end_from-end (suc fuel) buf s from e = rw e

-- The machine's first frame, or its end, is what `frame_end` finds.
pub next :
    (m : Machine) (t buf : Text) (from : ℕ)
    → buf ≡ m.lines ++ (m.line ++ t)
    → from ≡ length m.lines + length m.line
    → Next m t buf from
next m [] buf from e d =
    open_line m (e ∙ ap (λ l. m.lines ++ l) (append-nil m.line)) (run-nil m)
      λ fuel h. frame_end_from-end fuel buf (length m.lines) from (rest_at m [] buf from e d)
next m (b ∷ t) buf from e d = elim (Bool-cases (b == newline)) [
  | inr same ↦ next-byte m b t buf from e d same (
      next (record m { line = m.line ++ b ∷ [] }) t buf (from + 1) (grown m b t buf from e d)
        (grown_at m b t buf from e d))
  | inl at_newline ↦ elim (Bool-cases (is_empty (strip_cr m.line))) [
    | inl blank ↦ next-blank m b t buf from e d at_newline blank
    | inr more ↦ next-line m b t buf from e d at_newline more (
        next (lined m b t buf from e d) t buf (from + 1) (grown_line m b t buf from e d at_newline)
          (lined_at m b t buf from e d ∙ sym (add-zero _)))
  ]
]

-- `frame_end` searches from where the parser stopped.
pub frame_end-clamped :
    (buf : Text) (s from : ℕ)
    → s ≤ from
    → from ≤ length buf
    → frame_end buf s from ≡ frame_end_from (length buf + 1) buf s from
unfolding frame_end
frame_end-clamped buf s from h k =
    let low : min s (length buf) ≡ s = omega arith in
    let high : min (max from s) (length buf) ≡ from = omega arith in rw (low, high)
