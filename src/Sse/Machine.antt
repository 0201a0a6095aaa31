-- ===== src/Sse/Machine.antt =====
-- The reference for the parser of src/sse/parser.rs: a byte-at-a-time machine that holds the lines
-- of the frame being read and the line being read, and emits the raw bytes of each frame.
use anthroxy.Prelude.{
  ℕ, ◌==◌, ◌≡◌, refl, true, false, List, [], ◌∷◌, ◌++◌, if◌then◌else◌, is_empty, Text, append_assoc,
}
use anthroxy.Sse.{newline, strip_cr}

pub record Machine : Type 0 where
  -- Whole lines of the frame, with their newlines.
  pub lines : Text
  -- The line being read, with no newline.
  pub line : Text

abbrev pub start : Machine
start = record { lines = []; line = [] }

-- One byte: the frame that it ends, if any, and the machine after it.
unfoldable pub step : Machine → ℕ → List Text × Machine
step m b =
    if b == newline
    then (if is_empty (strip_cr m.line)
        then (m.lines ∷ [], start)
        else ([], record { lines = m.lines ++ (m.line ++ newline ∷ []); line = [] }))
    else ([], record m { line = m.line ++ b ∷ [] })

-- The raw frames that a text ends, and the machine after it.
unfoldable pub run : Machine → Text → List Text × Machine
run m [] = ([], m)
run m (b ∷ t) = let (frames, m') = step m b in let (more, m'') = run m' t in (frames ++ more, m'')

-- Running over two texts is running over their concatenation.
pub run-append :
    (m : Machine) (s t : Text)
    → run m (s ++ t) ≡ ((run m s).0 ++ (run (run m s).1 t).0, (run (run m s).1 t).1)
unfolding run
run-append m [] t = refl
run-append m (b ∷ s) t = rw (run-append (step m b).1 s t, append_assoc)

module _ (m : Machine) (b : ℕ) where
  pub step-byte : (b == newline) ≡ false → step m b ≡ ([], record m { line = m.line ++ b ∷ [] })
  unfolding step
  step-byte h = rw h

  pub step-line :
      (b == newline) ≡ true
      → is_empty (strip_cr m.line) ≡ false
      → step m b ≡ ([], record { lines = m.lines ++ (m.line ++ newline ∷ []); line = [] })
  unfolding step
  step-line h k = rw (h, k)

  pub step-blank :
      (b == newline) ≡ true → is_empty (strip_cr m.line) ≡ true → step m b ≡ (m.lines ∷ [], start)
  unfolding step
  step-blank h k = rw (h, k)

  -- A byte that ends no frame.
  pub run-quiet : (m' : Machine) (t : Text) → step m b ≡ ([], m') → run m (b ∷ t) ≡ run m' t
  unfolding run
  run-quiet m' t h = rw h

  pub run-frame :
      (t raw : Text)
      → step m b ≡ (raw ∷ [], start)
      → run m (b ∷ t) ≡ (raw ∷ (run start t).0, (run start t).1)
  unfolding run
  run-frame t raw h = rw h

pub run-nil : (m : Machine) → run m [] ≡ ([], m)
unfolding run
run-nil m = refl
