-- ===== src/Prelude/Texts.antt =====
-- Text as its UTF-8 bytes, and the operations of `str` and of byte slices that the source uses.
use Prim.Native.Nat.{ℕ, suc}
use Prim.Native.Char.{code}
use Prim.Native.String.{String}
use mathlib.Core.Path.{◌≡◌, refl}
use mathlib.Core.Logic.{◌↔◌}
use mathlib.Core.Bool.{Bool, true, false, ◌&&◌}
use mathlib.Core.Option.{Option, none, some}
use mathlib.Core.List.{List, [], ◌∷◌, ◌++◌}
use native.Mathlib.Omega.{arith}
use anthroxy.Prelude.Tests.{◌==◌, if◌then◌else◌}

abbrev pub Text : Type 0
Text = List ℕ

-- The bytes of an ASCII literal.
abbrev pub ascii : String → Text
ascii String.[] = []
ascii (String.◌∷◌ c s) = code c ∷ ascii s

unfoldable pub text_eq : Text → Text → Bool
text_eq [] [] = true
text_eq [] (y ∷ ys) = false
text_eq (x ∷ xs) [] = false
text_eq (x ∷ xs) (y ∷ ys) = x == y && text_eq xs ys

pub text_eq→eq : (s t : Text) → text_eq s t ≡ true → s ≡ t
unfolding text_eq
text_eq→eq [] [] h = refl
text_eq→eq [] (y ∷ t) h = cc
text_eq→eq (x ∷ s) [] h = cc
text_eq→eq (x ∷ s) (y ∷ t) h = ground (arith, text_eq→eq s t)

pub text_eq_self : (s : Text) → text_eq s s ≡ true
unfolding text_eq
text_eq_self [] = refl
text_eq_self (x ∷ s) = ground (arith, text_eq_self s)

pub text_eq_iff : (s t : Text) → (text_eq s t ≡ true) ↔ (s ≡ t)
text_eq_iff s t = (text_eq→eq s t, λ e. rw e (text_eq_self t))

-- `strip_prefix`: what follows the prefix.
unfoldable pub strip_prefix : Text → Text → Option Text
strip_prefix [] t = some t
strip_prefix (x ∷ p) [] = none
strip_prefix (x ∷ p) (y ∷ t) = if x == y then strip_prefix p t else none

-- `position(|&b| b == byte)`
unfoldable pub position : ℕ → Text → Option ℕ
position byte [] = none
position byte (b ∷ t) =
    let rest = position byte t in
    if b == byte then some 0 else elim rest [ none ↦ none | some n ↦ some (suc n) ]

-- `split(byte)`: the pieces between the separators, always at least one.
unfoldable pub split_on : ℕ → Text → List Text
split_on byte [] = [] ∷ []
split_on byte (b ∷ t) =
    let rest = split_on byte t in
    if b == byte
    then [] ∷ rest
    else elim rest [ [] ↦ (b ∷ []) ∷ [] | piece ∷ pieces ↦ (b ∷ piece) ∷ pieces ]

-- `join(separator)`
unfoldable pub join : Text → List Text → Text
join separator [] = []
join separator (t ∷ []) = t
join separator (t ∷ u ∷ us) = t ++ separator ++ join separator (u ∷ us)
