-- ===== src/OpenAi/Chunk/Held.antt =====
-- What the decoder of src/openai/chunk.rs holds: its count of held bytes covers them, and is bounded.
use anthroxy.Prelude.{
  ℕ, suc, ◌+◌, ◌≤◌, ◌<◌, ◌==◌, ◌≡◌, refl, true, ◌&&◌, not, Option, none, some, [], ◌∷◌, ◌++◌,
  if◌then◌else◌, ltb, length, Text, NatMap, find, put, arith, length-append, Bool-cases,
  Option-cases, inl, inr, ◌⊎◌,
}
use anthroxy.OpenAi.{ToolCall}
use anthroxy.OpenAi.Chunk.Calls.{
  Call, pending, started, ChunkDecoder, new, max_calls, max_pending_arguments, numbered, or_else,
  waiting, at_entry, is_key, follow_at, follow,
}

-- Keys in increasing order, from `low` on.
abbrev pub Keyed : ℕ → NatMap Call → Type 0
Keyed low [] = Unit
Keyed low ((k, c) ∷ m) = (low ≤ k) × Keyed (suc k) m

abbrev pub size : Call → ℕ
size (pending id arguments) = length arguments
size started = 0

-- The argument bytes of the calls that wait for a name.
abbrev pub total : NatMap Call → ℕ
total [] = 0
total ((k, c) ∷ m) = size c + total m

abbrev size_at : ℕ → NatMap Call → ℕ
size_at k m = elim (find k m) [ none ↦ 0 | some c ↦ size c ]

find-below : (k low : ℕ) (m : NatMap Call) → Keyed low m → k < low → find k m ≡ none
unfolding find
find-below k low [] h l = refl
find-below k low ((j, c) ∷ m) (h, hs) l = ground (arith, find-below k (suc j) m hs)

Keyed-put : (k low : ℕ) (c : Call) (m : NatMap Call) → Keyed low m → low ≤ k → Keyed low (put k c m)
unfolding put
Keyed-put k low c [] h l = (l, tt)
Keyed-put k low c ((j, d) ∷ m) (h, hs) l = ground (arith, Keyed-put k (suc j) c m hs)

total-put :
    (k low : ℕ) (c : Call) (m : NatMap Call)
    → Keyed low m
    → total (put k c m) + size_at k m ≡ total m + size c
unfolding put find
total-put k low c [] h = omega arith
total-put k low c ((j, d) ∷ m) (h, hs) =
    ground (arith, total-put k (suc j) c m hs, find-below k (suc j) m hs)

length-put :
    (k low : ℕ) (c : Call) (m : NatMap Call)
    → Keyed low m
    → length (put k c m) ≡ (if is_key k m then length m else length m + 1)
unfolding put find
length-put k low c [] h = omega arith
length-put k low c ((j, d) ∷ m) (h, hs) =
    ground (arith, length-put k (suc j) c m hs, find-below k (suc j) m hs)

-- What holds of a decoder between two deltas.
pub record IsSound (d : ChunkDecoder) : Type 0 where
  pub keyed : Keyed 0 d.calls
  -- The end of the stream takes the calls and leaves the count, so this is no equation.
  pub covers : total d.calls ≤ d.held
  pub bounded : d.held ≤ max_pending_arguments
  pub few : length d.calls ≤ max_calls

module _ (uuid : Text) (index : ℕ) (call : ToolCall) (d : ChunkDecoder) (s : IsSound d) where
  waiting-IsSound :
      (id : Option Text) (arguments : Text)
      → size_at index d.calls ≡ length arguments
      → (is_key index d.calls ≡ true) ⊎ (length d.calls < max_calls)
      → IsSound (waiting uuid index id arguments call d).0
  unfolding waiting
  waiting-IsSound id arguments at room =
      let c = pending (or_else id call.id) (arguments ++ call.arguments) in
      let grown = total-put index 0 c d.calls s.keyed in
      let done = total-put index 0 started d.calls s.keyed in
      let more = length-append arguments call.arguments in
      let count : (b : Call) → length (put index b d.calls) ≤ max_calls =
        λ b. ground (arith, length-put index 0 b d.calls s.keyed, s.few) in
      elim (Option-cases call.name) [
        | inr (name, e) ↦ rw e (record {
          keyed = Keyed-put index 0 started d.calls s.keyed (omega arith);
          covers = omega (arith, done, more, at, s.covers);
          bounded = omega (arith, done, more, at, s.covers, s.bounded);
          few = count started;
        })
        | inl e ↦ elim (Bool-cases (ltb max_pending_arguments (d.held + length call.arguments))) [
          | inl over ↦
              rw (e, over)
                (record {
                  keyed = tt;
                  covers = omega arith;
                  bounded = omega arith;
                  few = omega arith;
                })
          | inr under ↦
              rw (e, under)
                (record {
                  keyed = Keyed-put index 0 c d.calls s.keyed (omega arith);
                  covers = omega (arith, grown, more, at, s.covers);
                  bounded = ground arith;
                  few = count c;
                })
        ]
      ]

  at_entry-IsSound :
      (is_key index d.calls ≡ true) ⊎ (length d.calls < max_calls)
      → IsSound (at_entry uuid index call d).0
  unfolding at_entry
  at_entry-IsSound room = elim (Option-cases (find index d.calls)) [
    | inl e ↦ rw (e, at_entry) (waiting-IsSound none [] (rw (e, size_at)) room)
    | inr (pending id arguments, e) ↦
        rw (e, at_entry) (waiting-IsSound id arguments (rw (e, size_at)) room)
    | inr (started, e) ↦ rw (e, at_entry) s
  ]

follow_at-IsSound :
    (uuid : Text) (index : ℕ) (call : ToolCall) (d : ChunkDecoder)
    → IsSound d
    → IsSound (follow_at uuid index call d).0
unfolding follow_at
follow_at-IsSound uuid index call d s =
    let d' : ChunkDecoder = record d { last = some index } in
    let s' : IsSound d' = record {
      keyed = s.keyed;
      covers = s.covers;
      bounded = s.bounded;
      few = s.few;
    } in
    elim (Bool-cases (not (is_key index d.calls) && length d.calls == max_calls)) [
      | inl full ↦
          rw full
            (record { keyed = tt; covers = omega arith; bounded = omega arith; few = omega arith })
      | inr room ↦ rw room (at_entry-IsSound uuid index call d' s' (ground (arith, s.few)))
    ]

-- Whatever the delta, the decoder goes on holding at most 256 calls and 8 MiB of arguments, its
-- calls in key order, and its count of held bytes covers what its unnamed calls hold, so that
-- the subtraction of a call's bytes never wraps.
pub follow-IsSound :
    (uuid : ℕ → Text) (call : ToolCall) (d : ChunkDecoder)
    → IsSound d
    → IsSound (follow uuid call d).0
unfolding follow
follow-IsSound uuid call d s = elim (Bool-cases d.stopped) [
  | inl stop ↦ simp stop s
  | inr on ↦ elim (Option-cases (numbered call d)) [
    | inl e ↦
        rw (on, e)
          (record { keyed = tt; covers = omega arith; bounded = omega arith; few = omega arith })
    | inr (index, e) ↦ rw (on, e) (follow_at-IsSound (uuid index) index call d s)
  ]
]

pub new-IsSound : IsSound new
new-IsSound = record { keyed = tt; covers = omega arith; bounded = omega arith; few = omega arith }
