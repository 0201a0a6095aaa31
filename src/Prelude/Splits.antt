-- ===== src/Prelude/Splits.antt =====
-- Pieces of a text, split and joined.
use anthroxy.Prelude.Tests.{◌==◌, Bool-cases}
use anthroxy.Prelude.Texts.{Text, split_on, join}
use anthroxy.Prelude.Lists.{all, All}
use Prim.Native.Nat.{ℕ}
use mathlib.Core.Path.{◌≡◌, refl, ap, ◌∙◌}
use mathlib.Core.Logic.{inl, inr}
use mathlib.Core.Bool.{Bool, true, false, not}
use mathlib.Core.List.{List, [], ◌∷◌, ◌++◌, append_assoc}
use native.Mathlib.Omega.{arith}

-- The text does not have the byte.
abbrev pub is_free_of : ℕ → Text → Bool
is_free_of b t = all (λ c. not (c == b)) t

abbrev pub IsFreeOf : ℕ → Text → Type 0
IsFreeOf b t = is_free_of b t ≡ true

pub split_on-free : (b : ℕ) (t : Text) → IsFreeOf b t → split_on b t ≡ t ∷ []
unfolding split_on
split_on-free b [] f = refl
split_on-free b (c ∷ t) f = ground (arith, f, split_on-free b t)

pub split_on-append :
    (b : ℕ) (s t : Text) → IsFreeOf b s → split_on b (s ++ b ∷ t) ≡ s ∷ split_on b t
unfolding split_on
split_on-append b [] t f = ground arith
split_on-append b (c ∷ s) t f = ground (arith, f, split_on-append b s t)

-- What was joined is split again.
pub split_on-join :
    (b : ℕ) (t : Text) (ts : List Text)
    → All (IsFreeOf b) (t ∷ ts)
    → split_on b (join (b ∷ []) (t ∷ ts)) ≡ t ∷ ts
unfolding join
split_on-join b t [] f = split_on-free b t f.0
split_on-join b t (u ∷ ts) f =
    let joined : join (b ∷ []) (t ∷ u ∷ ts) ≡ t ++ b ∷ join (b ∷ []) (u ∷ ts) =
      append_assoc t (b ∷ []) (join (b ∷ []) (u ∷ ts)) in
    ap (split_on b) joined
    ∙ split_on-append b t (join (b ∷ []) (u ∷ ts)) f.0
    ∙ ap (λ ps. t ∷ ps) (split_on-join b u ts f.1)

cons-All :
    (b c : ℕ) (pieces : List Text)
    → (c == b) ≡ false
    → All (IsFreeOf b) pieces
    → All (IsFreeOf b) (elim pieces [ [] ↦ (c ∷ []) ∷ [] | piece ∷ more ↦ (c ∷ piece) ∷ more ])
cons-All b c [] other a = (rw other refl, tt)
cons-All b c (piece ∷ more) other a = (rw other a.0, a.1)

-- A piece does not have the separator.
pub split_on-All : (b : ℕ) (t : Text) → All (IsFreeOf b) (split_on b t)
unfolding split_on
split_on-All b [] = (refl, tt)
split_on-All b (c ∷ t) = elim (Bool-cases (c == b)) [
  | inl same ↦ simp same (refl, split_on-All b t)
  | inr other ↦ simp other (cons-All b c (split_on b t) other (split_on-All b t))
]
