-- ===== src/Anthropic/Stream/Reading/Turns.antt =====
-- Every event but the last has the two sides go on together.
use anthroxy.Prelude.{
  ℕ, suc, ◌^◌, ◌<◌, ◌≡◌, refl, Bool, true, false, Option, none, some, List, [], ◌∷◌, length, Text,
  NatMap, arith,
}
use anthroxy.Ir.{
  StopReason, Usage, Event, start, thinking_delta, text_delta, tool_call_start, tool_call_delta,
  finish, usage, error, done,
}
use anthroxy.Ir.Messages.{Block, thinking, text, tool_use, Kind, of_thinking, of_text}
use anthroxy.Anthropic.Stream.{Open, thinking_open, text_open, tool_open}
use anthroxy.Anthropic.Stream.Content.{ends_message}
use anthroxy.Anthropic.Stream.Reading.{last_is}
use anthroxy.Anthropic.Stream.Reading.Steps.{At, IsOpen, IsSame, Goes, point, delta_event}
use anthroxy.Anthropic.Stream.Reading.Said.{said-continues, said-opens}
use anthroxy.Anthropic.Stream.Reading.Events.{tool_start-Goes, tool_delta-Goes}
use anthroxy.Anthropic.Stream.Reading.Quiet.{finish-Goes, usage-Goes, start-Goes, empty-Goes}

-- A block is not of both types.
last_is-text : (bs : List Block) → last_is of_text bs ≡ true → last_is of_thinking bs ≡ false
last_is-text [] l = cc
last_is-text (thinking s ∷ []) l = cc
last_is-text (text s ∷ []) l = refl
last_is-text (tool_use x y z ∷ []) l = cc
last_is-text (b ∷ c ∷ bs) l = last_is-text (c ∷ bs) l

last_is-thinking : (bs : List Block) → last_is of_thinking bs ≡ true → last_is of_text bs ≡ false
last_is-thinking bs l = ground (arith, l, last_is-text bs)

module _ (uuid fallback : Text) (bs : List Block) (calls : List (ℕ × ℕ)) (positions : NatMap ℕ)
    (stop : StopReason) (counts : Usage) (same : IsSame calls positions)
    (bound : suc (length bs) < 2 ^ 32) where
  abbrev here : Bool → Option Open → Bool → At
  here begun o accepts = point bs calls positions stop counts begun o accepts

  said-Goes :
      (k : Kind) (c : ℕ) (t : Text) (begun accepts : Bool) (o : Option Open)
      → IsOpen o accepts bs
      → (b : At) × Goes uuid fallback (delta_event k (c ∷ t)) (here begun o accepts) b
  unfolding IsOpen
  said-Goes of_thinking c t begun accepts (some (thinking_open i)) (a, l, e) = rw a (
    _,
    said-continues uuid fallback bs calls positions stop counts same of_thinking i c t l e begun,
  )
  said-Goes of_text c t begun accepts (some (text_open i)) (a, l, e) =
      rw a (
        _,
        said-continues uuid fallback bs calls positions stop counts same of_text i c t l e begun,
      )
  said-Goes of_thinking c t begun accepts none a = (
    _,
    said-opens uuid fallback bs calls positions stop counts same of_thinking accepts c t
        (ground (arith, a)) bound begun none refl,
  )
  said-Goes of_text c t begun accepts none a = (
    _,
    said-opens uuid fallback bs calls positions stop counts same of_text accepts c t
        (ground (arith, a)) bound begun none refl,
  )
  said-Goes of_thinking c t begun accepts (some (text_open i)) (a, l, e) = (
    _,
    said-opens uuid fallback bs calls positions stop counts same of_thinking accepts c t
        (ground (arith, last_is-text bs l)) bound begun (some (text_open i)) refl,
  )
  said-Goes of_text c t begun accepts (some (thinking_open i)) (a, l, e) = (
    _,
    said-opens uuid fallback bs calls positions stop counts same of_text accepts c t
        (ground (arith, last_is-thinking bs l)) bound begun (some (thinking_open i)) refl,
  )
  said-Goes of_thinking c t begun accepts (some (tool_open x i)) (l, m) = (
    _,
    said-opens uuid fallback bs calls positions stop counts same of_thinking accepts c t
        (ground (arith, l)) bound begun (some (tool_open x i)) refl,
  )
  said-Goes of_text c t begun accepts (some (tool_open x i)) (l, m) = (
    _,
    said-opens uuid fallback bs calls positions stop counts same of_text accepts c t
        (ground (arith, m)) bound begun (some (tool_open x i)) refl,
  )

  pub event-Goes :
      (event : Event) (begun accepts : Bool) (o : Option Open)
      → IsOpen o accepts bs
      → ends_message event ≡ false
      → (b : At) × Goes uuid fallback event (here begun o accepts) b
  event-Goes (start i m) begun accepts o w h =
      (_, start-Goes uuid fallback bs calls positions stop counts same i m begun accepts o w)
  event-Goes (thinking_delta []) begun accepts o w h = (
    _,
    empty-Goes uuid fallback bs calls positions stop counts same of_thinking begun accepts o w,
  )
  event-Goes (thinking_delta (c ∷ t)) begun accepts o w h =
      said-Goes of_thinking c t begun accepts o w
  event-Goes (text_delta []) begun accepts o w h =
      (_, empty-Goes uuid fallback bs calls positions stop counts same of_text begun accepts o w)
  event-Goes (text_delta (c ∷ t)) begun accepts o w h = said-Goes of_text c t begun accepts o w
  event-Goes (tool_call_start index id name) begun accepts o w h = (
    _,
    tool_start-Goes uuid fallback bs calls positions stop counts same index id name accepts bound
        begun o,
  )
  event-Goes (tool_call_delta index arguments) begun accepts o w h =
      tool_delta-Goes uuid fallback bs calls positions stop counts same index arguments begun
        accepts o w
  event-Goes (finish reason) begun accepts o w h =
      (_, finish-Goes uuid fallback bs calls positions stop counts same reason begun accepts o)
  event-Goes (usage u) begun accepts o w h =
      (_, usage-Goes uuid fallback bs calls positions stop counts same u begun accepts o w)
  event-Goes (error f) begun accepts o w h = cc
  event-Goes done begun accepts o w h = cc
