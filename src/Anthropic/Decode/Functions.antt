-- ===== src/Anthropic/Decode/Functions.antt =====
-- The `<functions>` block of src/anthropic/decode.rs, read back.
use anthroxy.Prelude.{
  ℕ, zero, suc, ◌<◌, ◌≤◌, ◌≡◌, refl, ap, ◌∙◌, Bool, false, Option, none, some, List, [], ◌∷◌, ◌++◌,
  append_assoc, if◌then◌else◌, length, length-append, Text, ascii, text_eq, strip_prefix, contains,
  All, split_once, arith,
}
use anthroxy.Json.{Json}
use anthroxy.Ir.Requests.{Tool}
use anthroxy.Anthropic.Decode.References.{
  escape_close, function_lines, block_text, Function, function_value, function_text, function_texts,
  functions, distinct, functions_block,
}

-- The text has `</`.
abbrev closes : Text → Bool
closes t = contains (ascii "</") t

closes-escape_close : (before : ℕ) (t : Text) → closes (before ∷ escape_close before t) ≡ false
unfolding escape_close contains strip_prefix
closes-escape_close before [] = ground arith
closes-escape_close before (c ∷ t) = ground (arith, closes-escape_close c t)

abbrev cons_some : Text → Option (List Text) → Option (List Text)
cons_some t none = none
cons_some t (some ts) = some (t ∷ ts)

closes-tail : (t : Text) → closes (0 ∷ t) ≡ false → closes t ≡ false
unfolding contains strip_prefix
closes-tail t h = ground (arith, h)

-- The reader of a block: the text of each function up to the first `</function>` after it, which ends
-- its line.
read_lines : ℕ → Text → Option (List Text)
unfolding strip_prefix split_once text_eq
read_lines zero t = none
read_lines (suc fuel) t = elim (strip_prefix (ascii "<function>") t) [
  | none ↦ if text_eq t (ascii "</functions>") then some [] else none
  | some line ↦ elim (split_once (ascii "</function>") line) [
    | none ↦ none
    | some (f, more) ↦ elim (strip_prefix (10 ∷ []) more) [
      | none ↦ none
      | some rest ↦ cons_some f (read_lines fuel rest)
    ]
  ]
]

unfoldable pub read_block : Text → Option (List Text)
unfolding read_lines strip_prefix
read_block t = elim (strip_prefix (ascii "<functions>" ++ (10 ∷ [])) t) [
  | none ↦ none
  | some lines ↦ read_lines (suc (length lines)) lines
]

strip_prefix-append_self : (p t : Text) → strip_prefix p (p ++ t) ≡ some t
unfolding strip_prefix
strip_prefix-append_self [] t = refl
strip_prefix-append_self (c ∷ p) t = ground (arith, strip_prefix-append_self p t)

-- A text without `</` ends where the first one after it stands.
split_once-close :
    (needle s more : Text)
    → closes s ≡ false
    → split_once (b'<' ∷ b'/' ∷ needle) (s ++ b'<' ∷ b'/' ∷ (needle ++ more)) ≡ some (s, more)
unfolding split_once contains strip_prefix
split_once-close needle [] more h = ground (arith, strip_prefix-append_self needle more)
split_once-close needle (c ∷ []) more h = ground (arith, split_once-close needle [] more refl)
split_once-close needle (c ∷ d ∷ s) more h = ground (arith, h, split_once-close needle (d ∷ s) more)

abbrev Unclosed : List Text → Type 0
Unclosed ts = All (λ t. closes t ≡ false) ts

read_lines-line :
    (fuel : ℕ) (t rest : Text)
    → closes t ≡ false
    → read_lines (suc fuel) (ascii "<function>" ++ (t ++ (ascii "</function>" ++ (10 ∷ rest))))
      ≡ cons_some t (read_lines fuel rest)
unfolding read_lines
read_lines-line fuel t rest c =
    rw (split_once-close (ascii "function>") t (10 ∷ rest) c, read_lines) refl

read_lines-function_lines :
    (fuel : ℕ) (ts : List Text)
    → Unclosed ts
    → length ts < fuel
    → read_lines fuel (function_lines ts ++ ascii "</functions>") ≡ some ts
unfolding read_lines function_lines
read_lines-function_lines zero ts u h = elim h [ ]
read_lines-function_lines (suc fuel) [] u h = refl
read_lines-function_lines (suc fuel) (t ∷ ts) u h =
    let rest = function_lines ts ++ ascii "</functions>" in
    let line : (ascii "<function>" ++ (t ++ (ascii "</function>" ++ (10 ∷ function_lines ts))))
          ++ ascii "</functions>"
        ≡ ascii "<function>" ++ (t ++ (ascii "</function>" ++ (10 ∷ rest))) =
      ap (λ x. ascii "<function>" ++ x)
        (append_assoc t (ascii "</function>" ++ (10 ∷ function_lines ts)) (ascii "</functions>")) in
    ap (read_lines (suc fuel)) line
    ∙ read_lines-line fuel t rest u.0
    ∙ ap (cons_some t) (read_lines-function_lines fuel ts u.1 (omega (arith, h)))

length-function_lines : (ts : List Text) → length ts ≤ length (function_lines ts)
unfolding function_lines
length-function_lines [] = omega arith
length-function_lines (t ∷ ts) = omega (
  arith,
  length-function_lines ts,
  length-append t (ascii "</function>" ++ (10 ∷ function_lines ts)),
)

read_block-block_text : (ts : List Text) → Unclosed ts → read_block (block_text ts) ≡ some ts
unfolding read_block block_text
read_block-block_text ts u =
    read_lines-function_lines (suc (length (function_lines ts ++ ascii "</functions>"))) ts u (
      omega
        (arith, length-function_lines ts, length-append (function_lines ts) (ascii "</functions>")))

module _ (j : Json) where
  function_texts-Unclosed : (fs : List (Function j)) → Unclosed (function_texts j fs)
  unfolding function_text
  function_texts-Unclosed [] = tt
  function_texts-Unclosed (f ∷ fs) = (
    closes-tail _ (closes-escape_close 0 (j.to_string (function_value j f))),
    function_texts-Unclosed fs,
  )

  -- Whatever the tools and their schemas are, a reader that ends a function at the first `</function>`
  -- after it and the block at `</functions>` reads back the text of each function, in order.
  pub read_block-functions_block :
      (tools : List (Tool j.Value j.Float)) (spelled names : List Text)
      → read_block (functions_block j tools spelled names).0
        ≡ some (function_texts j (functions j tools spelled (distinct [] names)).0)
  unfolding functions_block
  read_block-functions_block tools spelled names =
      read_block-block_text _
        (function_texts-Unclosed (functions j tools spelled (distinct [] names)).0)
