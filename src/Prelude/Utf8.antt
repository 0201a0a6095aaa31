-- ===== src/Prelude/Utf8.antt =====
-- `std::str::from_utf8` and `String::from_utf8_lossy`: the well-formed byte sequences of UTF-8
-- (the Unicode standard, table 3-7).
use anthroxy.Prelude.Tests.{leb, if◌then◌else◌}
use anthroxy.Prelude.Texts.{Text}
use Prim.Native.Nat.{ℕ, zero, suc}
use mathlib.Core.Bool.{Bool, true, false, ◌&&◌}
use mathlib.Core.Option.{Option, none, some}
use mathlib.Core.List.{[], ◌∷◌, ◌++◌}

unfoldable pub within : ℕ → ℕ → ℕ → Bool
within lo hi b = leb lo b && leb b hi

-- What a first byte asks for: how many bytes are due, and the range of the next.
unfoldable pub lead : ℕ → Option (ℕ × ℕ × ℕ)
unfolding within
lead b =
    if within 0 0x7f b
    then some (0, 0, 0)
    else if within 0xc2 0xdf b
    then some (1, 0x80, 0xbf)
    else if within 0xe0 0xe0 b
    then some (2, 0xa0, 0xbf)
    else if within 0xed 0xed b
    then some (2, 0x80, 0x9f)
    else if within 0xe1 0xef b
    then some (2, 0x80, 0xbf)
    else if within 0xf0 0xf0 b
    then some (3, 0x90, 0xbf)
    else if within 0xf1 0xf3 b
    then some (3, 0x80, 0xbf)
    else if within 0xf4 0xf4 b
    then some (3, 0x80, 0x8f)
    else none

-- The validator, with the bytes that are due and the range of the next.
unfoldable pub utf8_from : Text → ℕ → ℕ → ℕ → Bool
unfolding within lead
utf8_from [] zero lo hi = true
utf8_from [] (suc due) lo hi = false
utf8_from (b ∷ t) (suc due) lo hi = within lo hi b && utf8_from t due 0x80 0xbf
utf8_from (b ∷ t) zero lo hi = elim (lead b) [
  | none ↦ false
  | some (due, low, high) ↦ utf8_from t due low high
]

unfoldable pub is_utf8 : Text → Bool
unfolding utf8_from
is_utf8 t = utf8_from t 0 0 0

-- U+FFFD
abbrev replacement : Text
replacement = 0xef ∷ 0xbf ∷ 0xbd ∷ []

-- Each ill-formed sequence becomes one replacement; `held` are the bytes of the sequence so far.
lossy_from : Text → Text → ℕ → ℕ → ℕ → Text
unfolding within lead
lossy_from [] held zero lo hi = held
lossy_from [] held (suc due) lo hi = replacement
lossy_from (b ∷ t) held (suc due) lo hi = elim (within lo hi b) [
  | true ↦ lossy_from t (held ++ b ∷ []) due 0x80 0xbf
  | false ↦ elim (lead b) [
    | none ↦ replacement ++ (replacement ++ lossy_from t [] 0 0 0)
    | some (due', low, high) ↦ replacement ++ lossy_from t (b ∷ []) due' low high
  ]
]
lossy_from (b ∷ t) held zero lo hi = elim (lead b) [
  | none ↦ held ++ (replacement ++ lossy_from t [] 0 0 0)
  | some (due', low, high) ↦ held ++ lossy_from t (b ∷ []) due' low high
]

unfoldable pub from_utf8_lossy : Text → Text
unfolding lossy_from
from_utf8_lossy t = lossy_from t [] 0 0 0
