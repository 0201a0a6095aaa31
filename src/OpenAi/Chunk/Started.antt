-- ===== src/OpenAi/Chunk/Started.antt =====
-- The order of tool events that the decoder of src/openai/chunk.rs emits: a call starts once, and
-- its arguments come after its start.
use anthroxy.Prelude.{
  ℕ, ◌+◌, ◌==◌, ◌≡◌, refl, Bool, true, false, ◌&&◌, not, Option, none, some, List, [], ltb, ◌∷◌,
  ◌++◌, any, length, Text, find, put, find-put, arith, Bool-cases, Option-cases, inl, inr, ◌⊎◌,
}
use anthroxy.Ir.{Event, tool_call_start, tool_call_delta}
use anthroxy.OpenAi.{ToolCall, push_tool_call, unless_empty}
use anthroxy.OpenAi.Chunk.Calls.{
  Call, pending, started, ChunkDecoder, new, max_calls, max_pending_arguments, numbered, waiting,
  at_entry, is_key, follow,
}

-- The calls that events have started, after those of `seen`; `done` ends the stream.
abbrev pub starts : List Event → List ℕ → List ℕ
starts [] seen = seen
starts (tool_call_start i id name ∷ events) seen = starts events (i ∷ seen)
starts (_ ∷ events) seen = starts events seen

abbrev pub is_seen : ℕ → List ℕ → Bool
is_seen i seen = any (λ k. i == k) seen

-- Each start is of a call that has not started, and each delta of one that has.
abbrev pub Announced : List Event → List ℕ → Type 0
Announced [] seen = Unit
Announced (tool_call_start i id name ∷ events) seen =
    (is_seen i seen ≡ false) × Announced events (i ∷ seen)
Announced (tool_call_delta i arguments ∷ events) seen =
    (is_seen i seen ≡ true) × Announced events seen
Announced (_ ∷ events) seen = Announced events seen

abbrev is_started : Option Call → Bool
is_started none = false
is_started (some (pending id arguments)) = false
is_started (some started) = true

-- The decoder's started calls are those that were seen to start, unless it follows none any more.
abbrev pub Tracks : ChunkDecoder → List ℕ → Type 0
Tracks d seen = (d.stopped ≡ true) ⊎ ((i : ℕ) → is_started (find i d.calls) ≡ is_seen i seen)

abbrev pub Tells : ChunkDecoder × List Event → List ℕ → Type 0
Tells (d, events) seen = Announced events seen × Tracks d (starts events seen)

module _ (uuid : Text) (index : ℕ) (call : ToolCall) (d : ChunkDecoder) (seen : List ℕ)
    (same : (i : ℕ) → is_started (find i d.calls) ≡ is_seen i seen) where
  put_pending :
      (c : Call)
      → is_started (some c) ≡ false
      → is_started (find index d.calls) ≡ false
      → (i : ℕ) → is_started (find i (put index c d.calls)) ≡ is_seen i seen
  put_pending c p q i = rw (find-put index i c d.calls) (ground (arith, same i))

  put_started : (i : ℕ) → is_started (find i (put index started d.calls)) ≡ is_seen i (index ∷ seen)
  put_started i = rw (find-put index i started d.calls) (ground (arith, same i))

  unseen : is_started (find index d.calls) ≡ false → is_seen index seen ≡ false
  unseen fresh = ground (arith, same index)

  -- The events of a call that starts.
  announced :
      (id : Text) (name : Text) (arguments : Text)
      → is_seen index seen ≡ false
      → Announced
          (tool_call_start index id name ∷ unless_empty (tool_call_delta index) arguments)
          seen
        × (starts (unless_empty (tool_call_delta index) arguments) (index ∷ seen) ≡ index ∷ seen)
  announced id name [] h = ((h, tt), refl)
  announced id name (c ∷ t) h = ((h, (ground arith, tt)), refl)

  waiting-Tells :
      (id : Option Text) (arguments : Text)
      → is_started (find index d.calls) ≡ false
      → Tells (waiting uuid index id arguments call d) seen
  unfolding waiting push_tool_call
  waiting-Tells id arguments fresh = elim (Option-cases call.name) [
    | inr (name, e) ↦
        let (told, last) = announced [] name (arguments ++ call.arguments) (unseen fresh) in
        rw e (told, rw last (inr put_started))
    | inl e ↦ elim (Bool-cases (ltb max_pending_arguments (d.held + length call.arguments))) [
      | inl over ↦ rw (e, over) (tt, inl refl)
      | inr under ↦ rw (e, under) (tt, inr (put_pending _ refl fresh))
    ]
  ]

  at_entry-Tells : Tells (at_entry uuid index call d) seen
  unfolding at_entry
  at_entry-Tells = elim (Option-cases (find index d.calls)) [
    | inl e ↦ rw (e, at_entry) (waiting-Tells none [] (rw e))
    | inr (pending id arguments, e) ↦ rw (e, at_entry) (waiting-Tells id arguments (rw e))
    | inr (started, e) ↦ rw (e, at_entry) (late call.arguments (ground (arith, same index)))
  ]
    where
      late :
          (arguments : Text)
          → is_seen index seen ≡ true
          → Tells (d, unless_empty (tool_call_delta index) arguments) seen
      late [] h = (tt, inr same)
      late (c ∷ t) h = ((h, tt), inr same)

-- Of each tool call that a delta names, the events say its start before its arguments, and its
-- start once; and the decoder's started calls remain those that the events have started.
pub follow-Tells :
    (uuid : ℕ → Text) (call : ToolCall) (d : ChunkDecoder) (seen : List ℕ)
    → Tracks d seen
    → Tells (follow uuid call d) seen
unfolding follow
follow-Tells uuid call d seen (inl stop) = ground arith
follow-Tells uuid call d seen (inr same) = elim (Bool-cases d.stopped) [
  | inl stop ↦ simp stop (tt, inl refl)
  | inr on ↦ elim (Option-cases (numbered call d)) [
    | inl e ↦ simp (on, e) (tt, inl refl)
    | inr (index, e) ↦
        elim (Bool-cases (not (is_key index d.calls) && length d.calls == max_calls)) [
          | inl full ↦ simp (on, e, full) (tt, inl refl)
          | inr room ↦
              simp (on, e, room)
                (at_entry-Tells (uuid index) index call
                  (record d { last = some index; stopped = false }) seen same)
        ]
  ]
]

pub new-Tracks : Tracks new []
unfolding find
new-Tracks = inr (λ i. refl)
