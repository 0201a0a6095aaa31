-- ===== src/Prelude/Strings.antt =====
-- Methods of `str` that the source calls, over the UTF-8 bytes.
use mathlib.Core.Logic.{inl, inr}
use anthroxy.Prelude.Tests.{Option-cases, leb, ltb, if◌then◌else◌}
use anthroxy.Prelude.Texts.{Text, strip_prefix}
use Prim.Native.Nat.{ℕ, zero, suc, ◌+◌, ◌/◌, ◌%◌}
use mathlib.Core.Path.{◌≡◌, refl, ◌∙◌}
use native.Mathlib.Omega.{arith}
use mathlib.Core.Bool.{Bool, true, false, ◌&&◌, ◌||◌}
use mathlib.Core.Option.{Option, none, some}
use mathlib.Core.List.{List, [], ◌∷◌, ◌++◌, map, reverse, reverse_aux}
use anthroxy.Prelude.Lists.{length, all}

-- `starts_with` and `contains`
abbrev pub starts_with : Text → Text → Bool
starts_with p t = elim (strip_prefix p t) [ none ↦ false | some rest ↦ true ]

unfoldable pub contains : Text → Text → Bool
unfolding strip_prefix
contains needle [] = starts_with needle []
contains needle (c ∷ t) = starts_with needle (c ∷ t) || contains needle t

-- `find` of a part: what stands before and behind the first place where it is.
unfoldable pub split_once : Text → Text → Option (Text × Text)
unfolding strip_prefix
split_once needle [] = elim (strip_prefix needle []) [ none ↦ none | some rest ↦ some ([], rest) ]
split_once needle (c ∷ t) =
    let later = split_once needle t in
    elim (strip_prefix needle (c ∷ t)) [
      | some rest ↦ some ([], rest)
      | none ↦ elim later [ none ↦ none | some w ↦ some (c ∷ w.0, w.1) ]
    ]

pub strip_prefix-append : (p t rest : Text) → strip_prefix p t ≡ some rest → t ≡ p ++ rest
unfolding strip_prefix
strip_prefix-append [] t rest h = cc
strip_prefix-append (x ∷ p) [] rest h = cc
strip_prefix-append (x ∷ p) (y ∷ t) rest h = ground (arith, strip_prefix-append p t rest)

-- The parts that `find` leaves make up the text.
pub split_once-append :
    (p t before behind : Text)
    → split_once p t ≡ some (before, behind)
    → t ≡ before ++ (p ++ behind)
unfolding split_once
split_once-append p [] a b h = ground (arith, strip_prefix-append p [] b)
split_once-append p (c ∷ t) a b h = elim (Option-cases (split_once p t)) [
  | inl e ↦ ground (arith, e, strip_prefix-append p (c ∷ t) b)
  | inr ((a', b'), e) ↦
      ground (arith, e, split_once-append p t a' b' e, strip_prefix-append p (c ∷ t) b)
]

-- A byte that continues a character.
abbrev pub continues : ℕ → Bool
continues b = leb 0x80 b && leb b 0xbf

-- The text before its n-th character, counting from 0, if it has that many:
-- `char_indices().nth(n)` and `truncate`.
unfoldable pub before_char : ℕ → Text → Option Text
before_char n [] = none
before_char zero (b ∷ t) =
    let rest = before_char zero t in
    if continues b then elim rest [ none ↦ none | some s ↦ some (b ∷ s) ] else some []
before_char (suc n) (b ∷ t) =
    let within = before_char (suc n) t in
    let next = before_char n t in
    elim (if continues b then within else next) [ none ↦ none | some s ↦ some (b ∷ s) ]

-- `chars().take(n).collect()`
unfoldable pub take_chars : ℕ → Text → Text
unfolding before_char
take_chars n t = elim (before_char n t) [ none ↦ t | some s ↦ s ]

-- The characters of `char::is_whitespace`, as UTF-8.
abbrev whitespace : List Text
whitespace =
    (9 ∷ [])
    ∷ (10 ∷ [])
    ∷ (11 ∷ [])
    ∷ (12 ∷ [])
    ∷ (13 ∷ [])
    ∷ (32 ∷ [])
    ∷ (0xc2 ∷ 0x85 ∷ [])
    ∷ (0xc2 ∷ 0xa0 ∷ [])
    ∷ (0xe1 ∷ 0x9a ∷ 0x80 ∷ [])
    ∷ (0xe2 ∷ 0x80 ∷ 0x80 ∷ [])
    ∷ (0xe2 ∷ 0x80 ∷ 0x81 ∷ [])
    ∷ (0xe2 ∷ 0x80 ∷ 0x82 ∷ [])
    ∷ (0xe2 ∷ 0x80 ∷ 0x83 ∷ [])
    ∷ (0xe2 ∷ 0x80 ∷ 0x84 ∷ [])
    ∷ (0xe2 ∷ 0x80 ∷ 0x85 ∷ [])
    ∷ (0xe2 ∷ 0x80 ∷ 0x86 ∷ [])
    ∷ (0xe2 ∷ 0x80 ∷ 0x87 ∷ [])
    ∷ (0xe2 ∷ 0x80 ∷ 0x88 ∷ [])
    ∷ (0xe2 ∷ 0x80 ∷ 0x89 ∷ [])
    ∷ (0xe2 ∷ 0x80 ∷ 0x8a ∷ [])
    ∷ (0xe2 ∷ 0x80 ∷ 0xa8 ∷ [])
    ∷ (0xe2 ∷ 0x80 ∷ 0xa9 ∷ [])
    ∷ (0xe2 ∷ 0x80 ∷ 0xaf ∷ [])
    ∷ (0xe2 ∷ 0x81 ∷ 0x9f ∷ [])
    ∷ (0xe3 ∷ 0x80 ∷ 0x80 ∷ [])
    ∷ []

strip_any : List Text → Text → Option Text
strip_any [] t = none
strip_any (p ∷ ps) t =
    let rest = strip_any ps t in elim (strip_prefix p t) [ some s ↦ some s | none ↦ rest ]

-- Each round takes off one character, so the length is fuel enough.
trim_by : List Text → ℕ → Text → Text
trim_by ps zero t = t
trim_by ps (suc fuel) t = elim (strip_any ps t) [ none ↦ t | some s ↦ trim_by ps fuel s ]

unfoldable pub trim_start : Text → Text
unfolding trim_by strip_any strip_prefix
trim_start t = trim_by whitespace (length t) t

unfoldable pub trim_end : Text → Text
unfolding trim_by strip_any strip_prefix
trim_end t = reverse (trim_by (map reverse whitespace) (length t) (reverse t))

unfoldable pub trim : Text → Text
unfolding trim_start trim_end
trim t = trim_end (trim_start t)

-- The decimal digits that `{}` prints; a number below 10 ^ fuel has them all.
decimal_from : ℕ → ℕ → Text → Text
decimal_from zero n acc = acc
decimal_from (suc fuel) n acc =
    let rest = decimal_from fuel (n / 10) ((b'0' + n % 10) ∷ acc) in
    if ltb n 10 then (b'0' + n) ∷ acc else rest

-- Twenty digits hold every `u64`.
unfoldable pub decimal : ℕ → Text
unfolding decimal_from
decimal n = decimal_from 20 n []

-- Every byte of what is stripped and trimmed was there before.
module _ (p : ℕ → Bool) where
  all-append : (s t : Text) → all p (s ++ t) ≡ all p s && all p t
  all-append [] t = refl
  all-append (c ∷ s) t = ground (arith, all-append s t)

  all-strip_any :
      (ps : List Text) (t s : Text) → strip_any ps t ≡ some s → all p t ≡ true → all p s ≡ true
  unfolding strip_any
  all-strip_any [] t s e a = cc
  all-strip_any (w ∷ ps) t s e a = elim (Option-cases (strip_prefix w t)) [
    | inl none_e ↦ ground (arith, e, none_e, all-strip_any ps t s, a)
    | inr (rest, some_e) ↦
        ground (arith, e, some_e, strip_prefix-append w t rest some_e, all-append w rest, a)
  ]

  all-trim_by : (ps : List Text) (n : ℕ) (t : Text) → all p t ≡ true → all p (trim_by ps n t) ≡ true
  unfolding trim_by
  all-trim_by ps zero t a = a
  all-trim_by ps (suc n) t a = elim (Option-cases (strip_any ps t)) [
    | inl none_e ↦ simp (none_e, trim_by) a
    | inr (s, some_e) ↦ simp (some_e, trim_by) (all-trim_by ps n s (all-strip_any ps t s some_e a))
  ]

  all-reverse_aux : (s t : Text) → all p (reverse_aux s t) ≡ all p s && all p t
  all-reverse_aux [] t = refl
  all-reverse_aux (c ∷ s) t = ground (arith, all-reverse_aux s (c ∷ t))

  all-reverse : (t : Text) → all p (reverse t) ≡ all p t
  all-reverse t = ground (arith, all-reverse_aux t [])

  pub all-trim : (t : Text) → all p t ≡ true → all p (trim t) ≡ true
  unfolding trim trim_start trim_end
  all-trim t a =
      let started : all p (trim_start t) ≡ true = all-trim_by whitespace (length t) t a in
      let turned : all p (reverse (trim_start t)) ≡ true = all-reverse (trim_start t) ∙ started in
      all-reverse
        (trim_by (map reverse whitespace) (length (trim_start t)) (reverse (trim_start t)))
      ∙ all-trim_by (map reverse whitespace) (length (trim_start t)) (reverse (trim_start t)) turned
