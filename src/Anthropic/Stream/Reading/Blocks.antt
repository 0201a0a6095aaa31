-- ===== src/Anthropic/Stream/Reading/Blocks.antt =====
-- How deltas change the blocks of a message: their number and the type of the last.
use anthroxy.Prelude.{
  ℕ, zero, suc, ◌<◌, ◌≡◌, refl, ap, ◌&&◌, Bool, true, false, List, [], ◌∷◌, ◌++◌, length, Text,
  arith,
}
use anthroxy.Ir.Messages.{
  Block, thinking, text, tool_use, Kind, of_thinking, of_text, said, is_of, extended, add_said,
  extend_tool,
}
use anthroxy.Anthropic.Stream.{input_json}
use anthroxy.Anthropic.Stream.Reading.{delta_at, last_is}

pub extend_tool-delta_at :
    (i : ℕ) (t : Text) (bs : List Block) → delta_at i (input_json t) bs ≡ extend_tool i t bs
unfolding delta_at extend_tool
extend_tool-delta_at i t [] = refl
extend_tool-delta_at zero t (thinking s ∷ bs) = refl
extend_tool-delta_at zero t (text s ∷ bs) = refl
extend_tool-delta_at zero t (tool_use x y z ∷ bs) = refl
extend_tool-delta_at (suc i) t (b ∷ bs) = ap (λ x. b ∷ x) (extend_tool-delta_at i t bs)

pub length-extend_tool :
    (i : ℕ) (t : Text) (bs : List Block) → length (extend_tool i t bs) ≡ length bs
unfolding extend_tool
length-extend_tool i t [] = refl
length-extend_tool zero t (thinking s ∷ bs) = refl
length-extend_tool zero t (text s ∷ bs) = refl
length-extend_tool zero t (tool_use x y z ∷ bs) = refl
length-extend_tool (suc i) t (b ∷ bs) = omega (arith, length-extend_tool i t bs)

last_is-cons :
    (k : Kind) (b : Block) (bs cs : List Block)
    → length bs ≡ length cs
    → last_is k bs ≡ last_is k cs
    → last_is k (b ∷ bs) ≡ last_is k (b ∷ cs)
last_is-cons k b [] [] l e = refl
last_is-cons k b [] (c ∷ cs) l e = let no : ⊥ = omega (arith, l) in elim no [ ]
last_is-cons k b (c ∷ bs) [] l e = let no : ⊥ = omega (arith, l) in elim no [ ]
last_is-cons k b (c ∷ bs) (d ∷ cs) l e = e

pub last_is-extend_tool :
    (k : Kind) (i : ℕ) (t : Text) (bs : List Block) → last_is k (extend_tool i t bs) ≡ last_is k bs
unfolding extend_tool
last_is-extend_tool k i t [] = refl
last_is-extend_tool k zero t (thinking s ∷ bs) = refl
last_is-extend_tool k zero t (text s ∷ bs) = refl
last_is-extend_tool of_thinking zero t (tool_use x y z ∷ []) = refl
last_is-extend_tool of_text zero t (tool_use x y z ∷ []) = refl
last_is-extend_tool k zero t (tool_use x y z ∷ b ∷ bs) = refl
last_is-extend_tool k (suc i) t (b ∷ bs) =
    last_is-cons k b (extend_tool i t bs) bs (length-extend_tool i t bs)
      (last_is-extend_tool k i t bs)

pub last_is-append : (k : Kind) (bs : List Block) (b : Block) → last_is k (bs ++ b ∷ []) ≡ is_of k b
last_is-append k [] b = refl
last_is-append k (c ∷ []) b = refl
last_is-append k (c ∷ d ∷ bs) b = last_is-append k (d ∷ bs) b

pub length-add_said-open :
    (k : Kind) (t : Text) (bs : List Block)
    → last_is k bs ≡ true
    → length (add_said k true t bs) ≡ length bs
unfolding add_said
length-add_said-open k t [] l = cc
length-add_said-open k t (b ∷ []) l = ground (arith, l)
length-add_said-open k t (b ∷ c ∷ bs) l = omega (arith, length-add_said-open k t (c ∷ bs) l)

pub length-add_said-new :
    (k : Kind) (accepts : Bool) (t : Text) (bs : List Block)
    → accepts && last_is k bs ≡ false
    → length (add_said k accepts t bs) ≡ suc (length bs)
unfolding add_said
length-add_said-new k accepts t [] l = refl
length-add_said-new k accepts t (b ∷ []) l = ground (arith, l)
length-add_said-new k accepts t (b ∷ c ∷ bs) l =
    omega (arith, length-add_said-new k accepts t (c ∷ bs) l)

is_of-extended : (k : Kind) (t : Text) (b : Block) → is_of k (extended t b) ≡ is_of k b
is_of-extended k t (thinking s) = ground arith
is_of-extended k t (text s) = ground arith
is_of-extended k t (tool_use x y z) = ground arith

is_of-said : (k : Kind) (t : Text) → is_of k (said k t) ≡ true
is_of-said of_thinking t = refl
is_of-said of_text t = refl

pub length-add_said-positive :
    (k : Kind) (accepts : Bool) (t : Text) (bs : List Block) → 0 < length (add_said k accepts t bs)
unfolding add_said
length-add_said-positive k accepts t [] = omega arith
length-add_said-positive k accepts t (b ∷ []) = ground arith
length-add_said-positive k accepts t (b ∷ c ∷ bs) = omega arith

last_is-after :
    (k : Kind) (b : Block) (bs : List Block)
    → 0 < length bs
    → last_is k bs ≡ true
    → last_is k (b ∷ bs) ≡ true
last_is-after k b [] l e = let no : ⊥ = omega (arith, l) in elim no [ ]
last_is-after k b (c ∷ bs) l e = e

pub last_is-add_said :
    (k : Kind) (accepts : Bool) (t : Text) (bs : List Block)
    → last_is k (add_said k accepts t bs) ≡ true
unfolding add_said
last_is-add_said k accepts t [] = is_of-said k t
last_is-add_said k accepts t (b ∷ []) = ground (arith, is_of-said k t, is_of-extended k t b)
last_is-add_said k accepts t (b ∷ c ∷ bs) =
    last_is-after k b (add_said k accepts t (c ∷ bs))
      (length-add_said-positive k accepts t (c ∷ bs)) (last_is-add_said k accepts t (c ∷ bs))
