-- ===== src/Anthropic/Stream/Reading/Events.antt =====
-- Every event but the last, through the encoder and a client and through `Message::from_events`.
use anthroxy.Prelude.{
  ℕ, suc, ◌^◌, ◌<◌, ◌≡◌, refl, ◌∙◌, sym, Bool, true, false, Option, none, some, List, [], ◌∷◌, ◌++◌,
  is_empty, length, length-append, Text, NatMap, find, put, find-put, arith, Option-cases, inl, inr,
}
use anthroxy.Ir.{StopReason, Usage, tool_call_start, tool_call_delta}
use anthroxy.Ir.Messages.{Block, tool_use, of_thinking, of_text, extend_tool, step}
use anthroxy.Anthropic.Stream.{
  Open, thinking_open, text_open, tool_open, next_u32, insert, lookup, encode,
}
use anthroxy.Anthropic.Stream.Conforms.{lookup-insert}
use anthroxy.Anthropic.Stream.Reading.{read_events}
use anthroxy.Anthropic.Stream.Reading.Blocks.{
  extend_tool-delta_at, length-extend_tool, last_is-extend_tool, last_is-append,
}
use anthroxy.Anthropic.Stream.Reading.Steps.{At, IsOpen, IsSame, Goes, point, next_u32-length}

is_empty-insert : (k v : ℕ) (calls : List (ℕ × ℕ)) → is_empty (insert k v calls) ≡ false
unfolding insert
is_empty-insert k v [] = refl
is_empty-insert k v ((j, w) ∷ calls) = ground arith

is_empty-put : (k v : ℕ) (positions : NatMap ℕ) → is_empty (put k v positions) ≡ false
unfolding put
is_empty-put k v [] = refl
is_empty-put k v ((j, w) ∷ positions) = ground arith

IsSame-insert :
    (k v : ℕ) (calls : List (ℕ × ℕ)) (positions : NatMap ℕ)
    → IsSame calls positions
    → IsSame (insert k v calls) (put k v positions)
unfolding IsSame
IsSame-insert k v calls positions same = (
  λ j. ground (arith, lookup-insert k j v calls, find-put k j v positions, same.0 j),
  ground (arith, is_empty-insert k v calls, is_empty-put k v positions),
)

module _ (uuid fallback : Text) (bs : List Block) (calls : List (ℕ × ℕ)) (positions : NatMap ℕ)
    (stop : StopReason) (counts : Usage) (same : IsSame calls positions) where
  abbrev here : Bool → Option Open → Bool → At
  here begun o accepts = point bs calls positions stop counts begun o accepts

  pub tool_start-Goes :
      (index : ℕ) (id name : Text) (accepts : Bool)
      → suc (length bs) < 2 ^ 32
      → (begun : Bool) (o : Option Open)
      → Goes uuid fallback
          (tool_call_start index id name)
          (here begun o accepts)
          (record (here true (some (tool_open index (length bs))) true) {
            blocks = bs ++ tool_use id name [] ∷ [];
            calls = insert index (length bs) calls;
            positions = put index (length bs) positions;
          })
  unfolding encode read_events step IsOpen
  tool_start-Goes index id name accepts bound =
      let len : length (bs ++ tool_use id name [] ∷ []) ≡ suc (length bs) =
        omega (arith, length-append bs (tool_use id name [] ∷ [])) in
      let fits = IsSame-insert index (length bs) calls positions same in
      by_open len (next_u32-length bs (length (bs ++ tool_use id name [] ∷ [])) bound len) fits
    where
      by_open :
          length (bs ++ tool_use id name [] ∷ []) ≡ suc (length bs)
          → next_u32 (length bs) ≡ length (bs ++ tool_use id name [] ∷ [])
          → IsSame (insert index (length bs) calls) (put index (length bs) positions)
          → (begun : Bool) (o : Option Open)
          → Goes uuid fallback
              (tool_call_start index id name)
              (here begun o accepts)
              (record (here true (some (tool_open index (length bs))) true) {
                blocks = bs ++ tool_use id name [] ∷ [];
                calls = insert index (length bs) calls;
                positions = put index (length bs) positions;
              })
      by_open len next fits true none = (
        simp next refl,
        refl,
        λ id' model. (id', model, refl),
        (
          (
            last_is-append of_thinking bs (tool_use id name []),
            last_is-append of_text bs (tool_use id name []),
          ),
          fits,
        ),
        omega (arith, len),
        refl,
      )
      by_open len next fits true (some p) = (
        simp next refl,
        refl,
        λ id' model. (id', model, refl),
        (
          (
            last_is-append of_thinking bs (tool_use id name []),
            last_is-append of_text bs (tool_use id name []),
          ),
          fits,
        ),
        omega (arith, len),
        refl,
      )
      by_open len next fits false none = (
        simp next refl,
        refl,
        λ id' model. (id', model, refl),
        (
          (
            last_is-append of_thinking bs (tool_use id name []),
            last_is-append of_text bs (tool_use id name []),
          ),
          fits,
        ),
        omega (arith, len),
        refl,
      )
      by_open len next fits false (some p) = (
        simp next refl,
        refl,
        λ id' model. (id', model, refl),
        (
          (
            last_is-append of_thinking bs (tool_use id name []),
            last_is-append of_text bs (tool_use id name []),
          ),
          fits,
        ),
        omega (arith, len),
        refl,
      )

  IsOpen-extend_tool :
      (i : ℕ) (t : Text) (accepts : Bool) (o : Option Open)
      → IsOpen o accepts bs
      → IsOpen o accepts (extend_tool i t bs)
  unfolding IsOpen
  IsOpen-extend_tool i t accepts none w = w
  IsOpen-extend_tool i t accepts (some (thinking_open j)) w =
      rw (last_is-extend_tool of_thinking i t bs, length-extend_tool i t bs) w
  IsOpen-extend_tool i t accepts (some (text_open j)) w =
      rw (last_is-extend_tool of_text i t bs, length-extend_tool i t bs) w
  IsOpen-extend_tool i t accepts (some (tool_open call j)) w =
      rw (last_is-extend_tool of_thinking i t bs, last_is-extend_tool of_text i t bs) w

  no_call-Goes :
      (index : ℕ) (arguments : Text) (accepts : Bool) (o : Option Open)
      → IsOpen o accepts bs
      → lookup index calls ≡ none
      → find index positions ≡ none
      → (begun : Bool)
      → Goes uuid fallback
          (tool_call_delta index arguments)
          (here begun o accepts)
          (here begun o accepts)
  unfolding encode read_events step
  no_call-Goes index arguments accepts o w e f true =
      (simp e refl, simp e refl, λ id model. (id, model, simp f refl), (w, same), omega arith, refl)
  no_call-Goes index arguments accepts o w e f false =
      (simp e refl, simp e refl, λ id model. (id, model, simp f refl), (w, same), omega arith, refl)

  call-Goes :
      (index : ℕ) (arguments : Text) (accepts : Bool) (o : Option Open) (i : ℕ)
      → IsOpen o accepts bs
      → lookup index calls ≡ some i
      → find index positions ≡ some i
      → (begun : Bool)
      → Goes uuid fallback
          (tool_call_delta index arguments)
          (here begun o accepts)
          (record (here begun o accepts) { blocks = extend_tool i arguments bs })
  unfolding encode read_events step
  call-Goes index arguments accepts o i w e f true = (
    simp (e, length-extend_tool i arguments bs) refl,
    simp (e, extend_tool-delta_at i arguments bs) refl,
    λ id model. (id, model, simp f refl),
    (IsOpen-extend_tool i arguments accepts o w, same),
    omega (arith, length-extend_tool i arguments bs),
    refl,
  )
  call-Goes index arguments accepts o i w e f false = (
    simp (e, length-extend_tool i arguments bs) refl,
    simp (e, extend_tool-delta_at i arguments bs) refl,
    λ id model. (id, model, simp f refl),
    (IsOpen-extend_tool i arguments accepts o w, same),
    omega (arith, length-extend_tool i arguments bs),
    refl,
  )

  pub tool_delta-Goes :
      (index : ℕ) (arguments : Text) (begun accepts : Bool) (o : Option Open)
      → IsOpen o accepts bs
      → (b : At) × Goes uuid fallback (tool_call_delta index arguments) (here begun o accepts) b
  unfolding IsSame
  tool_delta-Goes index arguments begun accepts o w = elim (Option-cases (lookup index calls)) [
    | inl e ↦ (_, no_call-Goes index arguments accepts o w e (sym (same.0 index) ∙ e) begun)
    | inr (i, e) ↦ (_, call-Goes index arguments accepts o i w e (sym (same.0 index) ∙ e) begun)
  ]
