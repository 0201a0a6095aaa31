-- ===== src/Anthropic/Stream/Reading.antt =====
-- What a client folds out of the events of a Messages API stream: the message that they tell. Each
-- `content_block_start` adds a block, each delta is appended to the block at its index when it is of
-- the block's type, `message_delta` has the stop reason and the counts, and an `error` ends all.
pub mod Blocks
pub mod Steps
pub mod Said
pub mod Events
pub mod Quiet
pub mod Turns
pub mod Ends
mod Tests
pub mod Agrees
use anthroxy.Prelude.{
  ℕ, zero, suc, ◌+◌, ◌%◌, ◌^◌, ◌<◌, ◌≤◌, ◌≡◌, refl, ap, ◌∙◌, sym, ◌&&◌, Bool, true, false, List, [],
  ◌∷◌, ◌++◌, length, length-append, Text, Result, ok, err, Result-cases, inl, inr, arith,
}
use anthroxy.Ir.{StopReason, end_turn, Usage, no_usage}
use anthroxy.Ir.Messages.{
  Block, thinking, text, tool_use, Kind, of_thinking, of_text, said, is_of, extended, add_said,
  extend_tool,
}
use anthroxy.Anthropic.Errors.{ErrorDetail}
use anthroxy.Anthropic.Stream.{
  thinking_block, text_block, tool_block, Delta, thinking_part, text_part, input_json, Written,
  message_start, block_start, block_delta, block_stop, message_delta, message_stop, error_event,
}

pub record Reading : Type 0 where
  pub blocks : List Block
  pub stop_read : StopReason
  pub usage_read : Usage

abbrev pub nothing_read : Reading
nothing_read = record { blocks = []; stop_read = end_turn; usage_read = no_usage }

-- A block as it starts.
abbrev pub blank : anthroxy.Anthropic.Stream.Block → Block
blank thinking_block = thinking []
blank text_block = text []
blank (tool_block id name) = tool_use id name []

abbrev pub with_delta : Delta → Block → Block
with_delta (thinking_part t) (thinking s) = thinking (s ++ t)
with_delta (text_part t) (text s) = text (s ++ t)
with_delta (input_json t) (tool_use id name s) = tool_use id name (s ++ t)
with_delta _ b = b

unfoldable pub delta_at : ℕ → Delta → List Block → List Block
delta_at i d [] = []
delta_at zero d (b ∷ bs) = with_delta d b ∷ bs
delta_at (suc i) d (b ∷ bs) = b ∷ delta_at i d bs

unfoldable pub read_one : Written → Reading → Result ErrorDetail Reading
unfolding delta_at
read_one (message_start id model) r = ok r
read_one (block_start b content) r = ok (record r { blocks = r.blocks ++ blank content ∷ [] })
read_one (block_delta b d) r = ok (record r { blocks = delta_at b d r.blocks })
read_one (block_stop b) r = ok r
read_one (message_delta stop u) r = ok (record r { stop_read = stop; usage_read = u })
read_one message_stop r = ok r
read_one (error_event detail) r = err detail

unfoldable pub read_events : List Written → Reading → Result ErrorDetail Reading
unfolding read_one
read_events [] r = ok r
read_events (w ∷ ws) r = elim (read_one w r) [ err detail ↦ err detail | ok r' ↦ read_events ws r' ]

pub read_events-append :
    (xs ys : List Written) (r r' : Reading)
    → read_events xs r ≡ ok r'
    → read_events (xs ++ ys) r ≡ read_events ys r'
unfolding read_events
read_events-append [] ys r r' e = ground (arith, e)
read_events-append (x ∷ xs) ys r r' e = elim (Result-cases (read_one x r)) [
  | inr (detail, same) ↦ let no : ⊥ = ground (arith, same, e) in elim no [ ]
  | inl (r1, same) ↦
      let left : read_events xs r1 ≡ ok r' = ground (arith, same, e) in
      ground (arith, same, read_events-append xs ys r1 r' left)
]

-- The last block is of the kind.
abbrev pub last_is : Kind → List Block → Bool
last_is k [] = false
last_is k (b ∷ []) = is_of k b
last_is k (b ∷ c ∷ bs) = last_is k (c ∷ bs)

abbrev pub part_of : Kind → Text → Delta
part_of of_thinking t = thinking_part t
part_of of_text t = text_part t

-- The delta of a block that is open goes where the message has it.
pub delta_at-last :
    (k : Kind) (i : ℕ) (t : Text) (bs : List Block)
    → last_is k bs ≡ true
    → suc i ≡ length bs
    → delta_at i (part_of k t) bs ≡ add_said k true t bs
unfolding delta_at add_said
delta_at-last k i t [] l e = cc
delta_at-last of_thinking zero t (thinking s ∷ []) l e = refl
delta_at-last of_text zero t (text s ∷ []) l e = refl
delta_at-last of_thinking zero t (text s ∷ []) l e = cc
delta_at-last of_thinking zero t (tool_use x y z ∷ []) l e = cc
delta_at-last of_text zero t (thinking s ∷ []) l e = cc
delta_at-last of_text zero t (tool_use x y z ∷ []) l e = cc
delta_at-last k zero t (b ∷ c ∷ bs) l e = let no : ⊥ = omega (arith, e) in elim no [ ]
delta_at-last k (suc i) t (b ∷ []) l e = let no : ⊥ = omega (arith, e) in elim no [ ]
delta_at-last k (suc i) t (b ∷ c ∷ bs) l e =
    ap (λ x. b ∷ x) (delta_at-last k i t (c ∷ bs) l (omega (arith, e)))

-- A block that starts with a delta is the message's new block.
pub delta_at-new :
    (k : Kind) (accepts : Bool) (t : Text) (bs : List Block)
    → accepts && last_is k bs ≡ false
    → delta_at (length bs) (part_of k t) (bs ++ said k [] ∷ []) ≡ add_said k accepts t bs
unfolding delta_at add_said
delta_at-new of_thinking accepts t [] l = refl
delta_at-new of_text accepts t [] l = refl
delta_at-new of_thinking accepts t (b ∷ []) l = rw l refl
delta_at-new of_text accepts t (b ∷ []) l = rw l refl
delta_at-new k accepts t (b ∷ c ∷ bs) l = ap (λ x. b ∷ x) (delta_at-new k accepts t (c ∷ bs) l)
