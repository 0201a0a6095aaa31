-- ===== src/Anthropic/Stream/Conforms.antt =====
-- The encoder of src/anthropic/stream.rs keeps to the client's order of events.
use anthroxy.Prelude.{
  ℕ, ◌==◌, ◌≡◌, refl, true, Option, none, some, List, [], ◌∷◌, ◌++◌, if◌then◌else◌, any, Text,
  arith, Option-cases, inl, inr,
}
use anthroxy.Ir.{
  StopReason, Usage, Event, start, thinking_delta, text_delta, tool_call_start, tool_call_delta,
  finish, usage, error, done,
}
use anthroxy.Anthropic.Stream.{
  Written, next_u32, State, idle, opened, closed, Open, thinking_open, text_open, tool_open,
  TextKind, thinking_kind, text_kind, StreamEncoder, insert, lookup, Out, close_open, text_delta_in,
  tool_start_in, tool_delta_in, finish_stream, encode_open,
}
use anthroxy.Anthropic.Stream.Grammar.{
  Kind, thinking, text, tool, Phase, before, inside, ended, accept, accept_all,
}

abbrev pub now : Option Open → Option (ℕ × Kind)
now none = none
now (some (thinking_open b)) = some (b, thinking)
now (some (text_open b)) = some (b, text)
now (some (tool_open call b)) = some (b, tool)

-- Every block that the encoder has for a call is a tool block of the stream.
abbrev pub Tracked : List (ℕ × ℕ) → List ℕ → Type 0
Tracked calls tools = (k b : ℕ) → lookup k calls ≡ some b → any (λ c. b == c) tools ≡ true

-- The phase that a client is in when the encoder is in a state.
abbrev pub At : State → Option Open → ℕ → List (ℕ × ℕ) → Phase → Type 0
At idle o n calls p = (o ≡ none) × (n ≡ 0) × (calls ≡ []) × (p ≡ before)
At opened o n calls p = (tools : List ℕ) × (p ≡ inside (now o) n tools) × Tracked calls tools
At closed o n calls p = p ≡ ended

abbrev pub Conforms : StreamEncoder → Phase → Type 0
Conforms e p = At e.state e.open_now e.next_index e.tools p

-- What a method wrote is what a client in the phase may read, and leaves the two in step.
abbrev pub Leads : Out → Phase → Type 0
Leads (e, out) p = (q : Phase) × (accept_all out p ≡ some q) × Conforms e q

pub accept_all-append :
    (xs ys : List Written) (p q : Phase)
    → accept_all xs p ≡ some q
    → accept_all (xs ++ ys) p ≡ accept_all ys q
accept_all-append [] ys p q h = ground arith
accept_all-append (x ∷ xs) ys p q h = elim (Option-cases (accept x p)) [
  | inl e ↦ ground arith
  | inr (p', e) ↦ ground (arith, accept_all-append xs ys p' q)
]

pub lookup-insert :
    (k j v : ℕ) (m : List (ℕ × ℕ))
    → lookup j (insert k v m) ≡ (if k == j then some v else lookup j m)
unfolding insert lookup
lookup-insert k j v [] = refl
lookup-insert k j v ((i, w) ∷ m) = ground (arith, lookup-insert k j v m)

pub Tracked-insert :
    (k b : ℕ) (calls : List (ℕ × ℕ)) (tools : List ℕ)
    → Tracked calls tools
    → Tracked (insert k b calls) (b ∷ tools)
Tracked-insert k b calls tools h j c e = ground (arith, lookup-insert k j b calls, h j c)

-- The encoder in a message.
abbrev pub opened_at : Text → ℕ → List (ℕ × ℕ) → StopReason → Usage → Option Open → StreamEncoder
opened_at fallback n calls stop u o = record {
  fallback_model = fallback;
  state = opened;
  next_index = n;
  open_now = o;
  tools = calls;
  stop = stop;
  usage_now = u;
}

module _ (fallback : Text) (n : ℕ) (calls : List (ℕ × ℕ)) (stop : StopReason) (u : Usage)
    (tools : List ℕ) (tracked : Tracked calls tools) where
  close-Leads :
      (o : Option Open)
      → accept_all (close_open (opened_at fallback n calls stop u o)).1 (inside (now o) n tools)
        ≡ some (inside none n tools)
  unfolding close_open accept
  close-Leads none = refl
  close-Leads (some (thinking_open b)) = ground arith
  close-Leads (some (text_open b)) = ground arith
  close-Leads (some (tool_open c b)) = ground arith

  text-Leads :
      (uuid : Text) (k : TextKind) (t : Text) (o : Option Open)
      → Leads
          (text_delta_in uuid k t (opened_at fallback n calls stop u o))
          (inside (now o) n tools)
  unfolding text_delta_in accept
  text-Leads uuid k [] o = (inside (now o) n tools, refl, (tools, refl, tracked))
  text-Leads uuid thinking_kind (c ∷ t) none =
      (inside (some (n, thinking)) (next_u32 n) tools, ground arith, (tools, refl, tracked))
  text-Leads uuid thinking_kind (c ∷ t) (some (thinking_open b)) =
      (inside (some (b, thinking)) n tools, ground arith, (tools, refl, tracked))
  text-Leads uuid thinking_kind (c ∷ t) (some (text_open b)) =
      (inside (some (n, thinking)) (next_u32 n) tools, ground arith, (tools, refl, tracked))
  text-Leads uuid thinking_kind (c ∷ t) (some (tool_open k b)) =
      (inside (some (n, thinking)) (next_u32 n) tools, ground arith, (tools, refl, tracked))
  text-Leads uuid text_kind (c ∷ t) none =
      (inside (some (n, text)) (next_u32 n) tools, ground arith, (tools, refl, tracked))
  text-Leads uuid text_kind (c ∷ t) (some (thinking_open b)) =
      (inside (some (n, text)) (next_u32 n) tools, ground arith, (tools, refl, tracked))
  text-Leads uuid text_kind (c ∷ t) (some (text_open b)) =
      (inside (some (b, text)) n tools, ground arith, (tools, refl, tracked))
  text-Leads uuid text_kind (c ∷ t) (some (tool_open k b)) =
      (inside (some (n, text)) (next_u32 n) tools, ground arith, (tools, refl, tracked))

  tool-Leads :
      (uuid : Text) (index : ℕ) (id name : Text) (o : Option Open)
      → Leads
          (tool_start_in uuid index id name (opened_at fallback n calls stop u o))
          (inside (now o) n tools)
  unfolding tool_start_in accept
  tool-Leads uuid index id name none = (
    inside (some (n, tool)) (next_u32 n) (n ∷ tools),
    ground arith,
    (n ∷ tools, refl, Tracked-insert index n calls tools tracked),
  )
  tool-Leads uuid index id name (some (thinking_open b)) = (
    inside (some (n, tool)) (next_u32 n) (n ∷ tools),
    ground arith,
    (n ∷ tools, refl, Tracked-insert index n calls tools tracked),
  )
  tool-Leads uuid index id name (some (text_open b)) = (
    inside (some (n, tool)) (next_u32 n) (n ∷ tools),
    ground arith,
    (n ∷ tools, refl, Tracked-insert index n calls tools tracked),
  )
  tool-Leads uuid index id name (some (tool_open k b)) = (
    inside (some (n, tool)) (next_u32 n) (n ∷ tools),
    ground arith,
    (n ∷ tools, refl, Tracked-insert index n calls tools tracked),
  )

  arguments-Leads :
      (index : ℕ) (arguments : Text) (o : Option Open)
      → Leads
          (tool_delta_in index arguments (opened_at fallback n calls stop u o))
          (inside (now o) n tools)
  unfolding tool_delta_in accept
  arguments-Leads index arguments o = elim (Option-cases (lookup index calls)) [
    | inl e ↦ rw e (inside (now o) n tools, refl, (tools, refl, tracked))
    | inr (b, e) ↦
        rw e (inside (now o) n tools, rw (accept_all, tracked index b e), (tools, refl, tracked))
  ]

  pub finish-Leads :
      (o : Option Open)
      → Leads (finish_stream (opened_at fallback n calls stop u o)) (inside (now o) n tools)
  unfolding finish_stream accept
  finish-Leads none = (ended, refl, refl)
  finish-Leads (some (thinking_open b)) = (ended, ground arith, refl)
  finish-Leads (some (text_open b)) = (ended, ground arith, refl)
  finish-Leads (some (tool_open k b)) = (ended, ground arith, refl)

  reason-Leads :
      (uuid : Text) (reason : StopReason) (o : Option Open)
      → Leads
          (encode_open uuid (finish reason) (opened_at fallback n calls stop u o))
          (inside (now o) n tools)
  unfolding encode_open accept
  reason-Leads uuid reason none = (inside none n tools, refl, (tools, refl, tracked))
  reason-Leads uuid reason (some (thinking_open b)) =
      (inside none n tools, ground arith, (tools, refl, tracked))
  reason-Leads uuid reason (some (text_open b)) =
      (inside none n tools, ground arith, (tools, refl, tracked))
  reason-Leads uuid reason (some (tool_open k b)) =
      (inside none n tools, ground arith, (tools, refl, tracked))

  pub opened-Leads :
      (uuid : Text) (event : Event) (o : Option Open)
      → Leads
          (encode_open uuid event (opened_at fallback n calls stop u o))
          (inside (now o) n tools)
  unfolding encode_open accept
  opened-Leads uuid (start id model) o = (inside (now o) n tools, refl, (tools, refl, tracked))
  opened-Leads uuid (thinking_delta t) o = text-Leads uuid thinking_kind t o
  opened-Leads uuid (text_delta t) o = text-Leads uuid text_kind t o
  opened-Leads uuid (tool_call_start index id name) o = tool-Leads uuid index id name o
  opened-Leads uuid (tool_call_delta index arguments) o = arguments-Leads index arguments o
  opened-Leads uuid (finish reason) o = reason-Leads uuid reason o
  opened-Leads uuid (usage v) o = (inside (now o) n tools, refl, (tools, refl, tracked))
  opened-Leads uuid (error f) o = (ended, refl, refl)
  opened-Leads uuid done o = finish-Leads o
