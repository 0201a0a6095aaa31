-- ===== src/Anthropic/Stream/Reading/Steps.antt =====
-- One event, through the encoder and a client on one side and `Message::from_events` on the other.
use anthroxy.Prelude.{
  ℕ, suc, ◌^◌, ◌<◌, ◌≤◌, ◌≡◌, Bool, true, false, ◌||◌, not, Option, none, some, List, is_empty,
  length, Text, NatMap, find, ok, arith,
}
use anthroxy.Ir.{StopReason, Usage, Event, start, thinking_delta, text_delta, tool_call_start}
use anthroxy.Ir.Messages.{Block, Kind, of_thinking, of_text, Folded, step}
use anthroxy.Anthropic.Stream.{
  StreamEncoder, State, idle, opened, Open, thinking_open, text_open, tool_open, next_u32, lookup,
  encode,
}
use anthroxy.Anthropic.Stream.Reading.{Reading, nothing_read, read_events, last_is}

-- What the two sides know while the message goes on.
pub record At : Type 0 where
  pub begun : Bool
  pub blocks : List Block
  pub open_at : Option Open
  pub open_last : Bool
  pub calls : List (ℕ × ℕ)
  pub positions : NatMap ℕ
  pub stop : StopReason
  pub counts : Usage

abbrev pub state_of : Bool → State
state_of true = opened
state_of false = idle

abbrev pub encoder_at : Text → At → StreamEncoder
encoder_at fallback a = record {
  fallback_model = fallback;
  state = state_of a.begun;
  next_index = length a.blocks;
  open_now = a.open_at;
  tools = a.calls;
  stop = a.stop;
  usage_now = a.counts;
}

abbrev pub folded_at : Text → Text → At → Folded
folded_at id model a = record {
  message = record {
    id = id;
    model = model;
    blocks = a.blocks;
    stop_reason = a.stop;
    total_usage = a.counts;
  };
  tools = a.positions;
  open_last = a.open_last;
}

abbrev pub reading_at : At → Reading
reading_at a = record nothing_read { blocks = a.blocks }

-- The encoder's open block is the message's last one.
unfoldable pub IsOpen : Option Open → Bool → List Block → Type 0
IsOpen none accepts bs = accepts ≡ false
IsOpen (some (thinking_open i)) accepts bs =
    (accepts ≡ true) × (last_is of_thinking bs ≡ true) × (suc i ≡ length bs)
IsOpen (some (text_open i)) accepts bs =
    (accepts ≡ true) × (last_is of_text bs ≡ true) × (suc i ≡ length bs)
IsOpen (some (tool_open call i)) accepts bs =
    (last_is of_thinking bs ≡ false) × (last_is of_text bs ≡ false)

-- Both have the same block for each call.
unfoldable pub IsSame : List (ℕ × ℕ) → NatMap ℕ → Type 0
IsSame calls positions =
    ((k : ℕ) → lookup k calls ≡ find k positions) × (is_empty calls ≡ is_empty positions)

abbrev pub Fits : At → Type 0
Fits a = IsOpen a.open_at a.open_last a.blocks × IsSame a.calls a.positions

-- The event makes the encoder begin the message.
abbrev pub begins : Event → Bool
begins (start id model) = true
begins (thinking_delta t) = not (is_empty t)
begins (text_delta t) = not (is_empty t)
begins (tool_call_start index id name) = true
begins _ = false

-- The event takes both sides from one point to another.
abbrev pub Goes : Text → Text → Event → At → At → Type 0
Goes uuid fallback event a b =
    ((encode uuid event (encoder_at fallback a)).0 ≡ encoder_at fallback b)
    × (read_events (encode uuid event (encoder_at fallback a)).1 (reading_at a) ≡ ok (reading_at b))
    × ((id model : Text)
        → (id' : Text) × (model' : Text) × (step event (folded_at id model a)
            ≡ ok (some (folded_at id' model' b))))
    × Fits b
    × (length b.blocks ≤ suc (length a.blocks))
    × (b.begun ≡ begins event || a.begun)

-- The index of a block after a new one.
pub next_u32-length :
    (bs : List Block) (n : ℕ)
    → suc (length bs) < 2 ^ 32
    → n ≡ suc (length bs)
    → next_u32 (length bs) ≡ n
next_u32-length bs n l e = omega (arith, l, e)

-- The event of a delta of a kind.
abbrev pub delta_event : Kind → Text → Event
delta_event of_thinking t = thinking_delta t
delta_event of_text t = text_delta t

abbrev pub open_as : Kind → ℕ → Open
open_as of_thinking i = thinking_open i
open_as of_text i = text_open i

-- The block that a delta of the kind continues.
abbrev pub taken_by : Kind → Option Open → Option ℕ
taken_by of_thinking (some (thinking_open i)) = some i
taken_by of_text (some (text_open i)) = some i
taken_by _ _ = none

abbrev pub point :
    List Block → List (ℕ × ℕ) → NatMap ℕ → StopReason → Usage → Bool → Option Open → Bool → At
point bs calls positions stop counts begun o accepts = record {
  begun = begun;
  blocks = bs;
  open_at = o;
  open_last = accepts;
  calls = calls;
  positions = positions;
  stop = stop;
  counts = counts;
}
