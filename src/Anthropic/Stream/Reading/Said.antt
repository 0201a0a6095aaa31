-- ===== src/Anthropic/Stream/Reading/Said.antt =====
-- A delta of text or thinking, through the encoder and a client and through `Message::from_events`.
use anthroxy.Prelude.{
  ℕ, suc, ◌^◌, ◌<◌, ◌≡◌, refl, sym, Bool, true, false, ◌&&◌, Option, none, some, List, [], ◌∷◌,
  ◌++◌, length, Text, NatMap, arith,
}
use anthroxy.Ir.{StopReason, Usage}
use anthroxy.Ir.Messages.{Block, Kind, of_thinking, of_text, said, add_said, said_in, step}
use anthroxy.Anthropic.Stream.{Open, thinking_open, text_open, tool_open, next_u32, encode}
use anthroxy.Anthropic.Stream.Reading.{
  read_events, last_is, delta_at, part_of, delta_at-last, delta_at-new,
}
use anthroxy.Anthropic.Stream.Reading.Blocks.{
  length-add_said-open, length-add_said-new, last_is-add_said,
}
use anthroxy.Anthropic.Stream.Reading.Steps.{
  At, IsOpen, IsSame, Goes, point, next_u32-length, taken_by, delta_event, open_as,
}

module _ (uuid fallback : Text) (bs : List Block) (calls : List (ℕ × ℕ)) (positions : NatMap ℕ)
    (stop : StopReason) (counts : Usage) (same : IsSame calls positions) where
  abbrev here : Bool → Option Open → Bool → At
  here begun o accepts = point bs calls positions stop counts begun o accepts

  -- A delta that the open block takes.
  pub said-continues :
      (k : Kind) (i c : ℕ) (t : Text)
      → last_is k bs ≡ true
      → suc i ≡ length bs
      → (begun : Bool)
      → Goes uuid fallback
          (delta_event k (c ∷ t))
          (here begun (some (open_as k i)) true)
          (record (here true (some (open_as k i)) true) { blocks = add_said k true (c ∷ t) bs })
  unfolding encode read_events step said_in IsOpen
  said-continues k i c t l e =
      by_kind k l (length-add_said-open k (c ∷ t) bs l) (delta_at-last k i (c ∷ t) bs l e)
        (last_is-add_said k true (c ∷ t) bs)
    where
      by_kind :
          (k : Kind)
          → last_is k bs ≡ true
          → length (add_said k true (c ∷ t) bs) ≡ length bs
          → delta_at i (part_of k (c ∷ t)) bs ≡ add_said k true (c ∷ t) bs
          → last_is k (add_said k true (c ∷ t) bs) ≡ true
          → (begun : Bool)
          → Goes uuid fallback
              (delta_event k (c ∷ t))
              (here begun (some (open_as k i)) true)
              (record (here true (some (open_as k i)) true) { blocks = add_said k true (c ∷ t) bs })
      by_kind of_thinking l len d last true = (
        simp len refl,
        simp d refl,
        λ id model. (id, model, refl),
        ((refl, last, rw len e), same),
        omega (arith, len),
        refl,
      )
      by_kind of_thinking l len d last false = (
        simp len refl,
        simp d refl,
        λ id model. (id, model, refl),
        ((refl, last, rw len e), same),
        omega (arith, len),
        refl,
      )
      by_kind of_text l len d last true = (
        simp len refl,
        simp d refl,
        λ id model. (id, model, refl),
        ((refl, last, rw len e), same),
        omega (arith, len),
        refl,
      )
      by_kind of_text l len d last false = (
        simp len refl,
        simp d refl,
        λ id model. (id, model, refl),
        ((refl, last, rw len e), same),
        omega (arith, len),
        refl,
      )

  -- A delta that opens a block of its own.
  pub said-opens :
      (k : Kind) (accepts : Bool) (c : ℕ) (t : Text)
      → accepts && last_is k bs ≡ false
      → suc (length bs) < 2 ^ 32
      → (begun : Bool) (o : Option Open) → taken_by k o ≡ none
      → Goes uuid fallback
          (delta_event k (c ∷ t))
          (here begun o accepts)
          (record (here true (some (open_as k (length bs))) true) {
            blocks = add_said k accepts (c ∷ t) bs;
          })
  unfolding encode read_events step said_in IsOpen
  said-opens k accepts c t l bound =
      let len = length-add_said-new k accepts (c ∷ t) bs l in
      by_kind k len (delta_at-new k accepts (c ∷ t) bs l) (last_is-add_said k accepts (c ∷ t) bs)
        (next_u32-length bs (length (add_said k accepts (c ∷ t) bs)) bound len)
    where
      by_kind :
          (k : Kind)
          → length (add_said k accepts (c ∷ t) bs) ≡ suc (length bs)
          → delta_at (length bs) (part_of k (c ∷ t)) (bs ++ said k [] ∷ [])
            ≡ add_said k accepts (c ∷ t) bs
          → last_is k (add_said k accepts (c ∷ t) bs) ≡ true
          → next_u32 (length bs) ≡ length (add_said k accepts (c ∷ t) bs)
          → (begun : Bool) (o : Option Open) → taken_by k o ≡ none
          → Goes uuid fallback
              (delta_event k (c ∷ t))
              (here begun o accepts)
              (record (here true (some (open_as k (length bs))) true) {
                blocks = add_said k accepts (c ∷ t) bs;
              })
      by_kind of_thinking len d last next true none other = (
        simp next refl,
        simp d refl,
        λ id model. (id, model, refl),
        ((refl, last, sym len), same),
        omega (arith, len),
        refl,
      )
      by_kind of_thinking len d last next true (some (text_open j)) other = (
        simp next refl,
        simp d refl,
        λ id model. (id, model, refl),
        ((refl, last, sym len), same),
        omega (arith, len),
        refl,
      )
      by_kind of_thinking len d last next true (some (tool_open x j)) other = (
        simp next refl,
        simp d refl,
        λ id model. (id, model, refl),
        ((refl, last, sym len), same),
        omega (arith, len),
        refl,
      )
      by_kind of_thinking len d last next false none other = (
        simp next refl,
        simp d refl,
        λ id model. (id, model, refl),
        ((refl, last, sym len), same),
        omega (arith, len),
        refl,
      )
      by_kind of_thinking len d last next false (some (text_open j)) other = (
        simp next refl,
        simp d refl,
        λ id model. (id, model, refl),
        ((refl, last, sym len), same),
        omega (arith, len),
        refl,
      )
      by_kind of_thinking len d last next false (some (tool_open x j)) other = (
        simp next refl,
        simp d refl,
        λ id model. (id, model, refl),
        ((refl, last, sym len), same),
        omega (arith, len),
        refl,
      )
      by_kind of_thinking len d last next begun (some (thinking_open j)) other = cc
      by_kind of_text len d last next true none other = (
        simp next refl,
        simp d refl,
        λ id model. (id, model, refl),
        ((refl, last, sym len), same),
        omega (arith, len),
        refl,
      )
      by_kind of_text len d last next true (some (thinking_open j)) other = (
        simp next refl,
        simp d refl,
        λ id model. (id, model, refl),
        ((refl, last, sym len), same),
        omega (arith, len),
        refl,
      )
      by_kind of_text len d last next true (some (tool_open x j)) other = (
        simp next refl,
        simp d refl,
        λ id model. (id, model, refl),
        ((refl, last, sym len), same),
        omega (arith, len),
        refl,
      )
      by_kind of_text len d last next false none other = (
        simp next refl,
        simp d refl,
        λ id model. (id, model, refl),
        ((refl, last, sym len), same),
        omega (arith, len),
        refl,
      )
      by_kind of_text len d last next false (some (thinking_open j)) other = (
        simp next refl,
        simp d refl,
        λ id model. (id, model, refl),
        ((refl, last, sym len), same),
        omega (arith, len),
        refl,
      )
      by_kind of_text len d last next false (some (tool_open x j)) other = (
        simp next refl,
        simp d refl,
        λ id model. (id, model, refl),
        ((refl, last, sym len), same),
        omega (arith, len),
        refl,
      )
      by_kind of_text len d last next begun (some (text_open j)) other = cc
