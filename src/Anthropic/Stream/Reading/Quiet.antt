-- ===== src/Anthropic/Stream/Reading/Quiet.antt =====
-- The events that change no block, through the encoder and a client and through `Message::from_events`.
use anthroxy.Prelude.{
  ℕ, ◌≡◌, refl, Bool, true, false, ◌&&◌, Option, none, some, List, [], is_empty, Text, NatMap, ok,
  arith, Bool-cases, inl, inr,
}
use anthroxy.Ir.{StopReason, Usage, start, finish, usage}
use anthroxy.Ir.Messages.{Block, Kind, of_thinking, of_text, step}
use anthroxy.Anthropic.Stream.{Open, encode}
use anthroxy.Anthropic.Stream.Reading.{read_events}
use anthroxy.Anthropic.Stream.Reading.Steps.{
  At, IsOpen, IsSame, Goes, point, delta_event, folded_at,
}

module _ (uuid fallback : Text) (bs : List Block) (calls : List (ℕ × ℕ)) (positions : NatMap ℕ)
    (stop : StopReason) (counts : Usage) (same : IsSame calls positions) where
  abbrev here : Bool → Option Open → Bool → At
  here begun o accepts = point bs calls positions stop counts begun o accepts

  pub finish-Goes :
      (reason : StopReason) (begun accepts : Bool) (o : Option Open)
      → Goes uuid fallback
          (finish reason)
          (here begun o accepts)
          (record (here begun none false) { stop = reason })
  unfolding encode read_events step IsOpen
  finish-Goes reason true accepts none =
      (refl, refl, λ id model. (id, model, refl), (refl, same), omega arith, refl)
  finish-Goes reason true accepts (some p) =
      (refl, refl, λ id model. (id, model, refl), (refl, same), omega arith, refl)
  finish-Goes reason false accepts none =
      (refl, refl, λ id model. (id, model, refl), (refl, same), omega arith, refl)
  finish-Goes reason false accepts (some p) =
      (refl, refl, λ id model. (id, model, refl), (refl, same), omega arith, refl)

  -- An event that changes no block.
  pub usage-Goes :
      (u : Usage) (begun accepts : Bool) (o : Option Open)
      → IsOpen o accepts bs
      → Goes uuid fallback
          (usage u)
          (here begun o accepts)
          (record (here begun o accepts) { counts = u })
  unfolding encode read_events step
  usage-Goes u true accepts o w =
      (refl, refl, λ id model. (id, model, refl), (w, same), omega arith, refl)
  usage-Goes u false accepts o w =
      (refl, refl, λ id model. (id, model, refl), (w, same), omega arith, refl)

  -- The first event that names the message may change its name.
  start-step :
      (i m id model : Text) (a : At)
      → (id' : Text) × (model' : Text) × (step (start i m) (folded_at id model a)
          ≡ ok (some (folded_at id' model' a)))
  unfolding step
  start-step i m id model a = elim (Bool-cases (is_empty id && is_empty model)) [
    | inl e ↦ (i, m, simp e refl)
    | inr e ↦ (id, model, simp e refl)
  ]

  pub start-Goes :
      (i m : Text) (begun accepts : Bool) (o : Option Open)
      → IsOpen o accepts bs
      → Goes uuid fallback (start i m) (here begun o accepts) (here true o accepts)
  unfolding encode read_events
  start-Goes i m true accepts o w = (
    refl,
    refl,
    λ id model. start-step i m id model (here true o accepts),
    (w, same),
    omega arith,
    refl,
  )
  start-Goes i m false accepts o w = (
    refl,
    refl,
    λ id model. start-step i m id model (here true o accepts),
    (w, same),
    omega arith,
    refl,
  )

  pub empty-Goes :
      (k : Kind) (begun accepts : Bool) (o : Option Open)
      → IsOpen o accepts bs
      → Goes uuid fallback (delta_event k []) (here begun o accepts) (here begun o accepts)
  unfolding encode read_events step
  empty-Goes of_thinking true accepts o w =
      (refl, refl, λ id model. (id, model, refl), (w, same), omega arith, refl)
  empty-Goes of_thinking false accepts o w =
      (refl, refl, λ id model. (id, model, refl), (w, same), omega arith, refl)
  empty-Goes of_text true accepts o w =
      (refl, refl, λ id model. (id, model, refl), (w, same), omega arith, refl)
  empty-Goes of_text false accepts o w =
      (refl, refl, λ id model. (id, model, refl), (w, same), omega arith, refl)
