-- ===== src/OpenAi/Chunk/Decoding.antt =====
-- The bounds of src/openai/chunk.rs over whole payloads, whatever JSON they hold.
use anthroxy.Prelude.{
  ℕ, true, Option, none, some, List, [], ◌∷◌, Text, ascii, arith, Bool-cases, inl, inr,
  Result-cases, Option-cases, text_eq, trim,
}
use anthroxy.Json.{Json, field, value_field}
use anthroxy.OpenAi.{parse_object, first_choice, tool_call}
use anthroxy.OpenAi.Errors.{error_document}
use anthroxy.OpenAi.Chunk.{delta_events, follow_all, choice_events, document_events, decode}
use anthroxy.OpenAi.Chunk.Calls.{ChunkDecoder, follow, finish_calls}
use anthroxy.OpenAi.Chunk.Held.{IsSound, follow-IsSound}

module _ (j : Json) (uuid : ℕ → Text) where
  open j use {Value, Object, as_object, as_array}

  follow_all-IsSound :
      (calls : List Value) (d : ChunkDecoder) → IsSound d → IsSound (follow_all j uuid calls d).0
  unfolding follow_all
  follow_all-IsSound [] d s = s
  follow_all-IsSound (call ∷ calls) d s =
      follow_all-IsSound calls (follow uuid (tool_call j call) d).0
        (follow-IsSound uuid (tool_call j call) d s)

  choice-IsSound :
      (choice : Option Value) (d : ChunkDecoder)
      → IsSound d
      → IsSound (choice_events j uuid choice d).0
  unfolding choice_events
  choice-IsSound none d s = s
  choice-IsSound (some choice) d s =
      elim (Option-cases (value_field j as_object choice (ascii "delta"))) [
        | inl e ↦ rw e s
        | inr (delta, e) ↦ elim (Option-cases (field j as_array delta (ascii "tool_calls"))) [
          | inl e' ↦ rw (e, delta_events, e') s
          | inr (calls, e') ↦ rw (e, delta_events, e') (follow_all-IsSound calls d s)
        ]
      ]

  finish-IsSound : (d : ChunkDecoder) → IsSound d → IsSound (finish_calls d).0
  unfolding finish_calls
  finish-IsSound d s = record {
    keyed = tt;
    covers = omega arith;
    bounded = s.bounded;
    few = omega arith;
  }

  document-IsSound :
      (root : Object) (d : ChunkDecoder) → IsSound d → IsSound (document_events j uuid root d).0
  unfolding document_events
  document-IsSound root d s =
      choice-IsSound (first_choice j root) (record d { started = true })
        (record { keyed = s.keyed; covers = s.covers; bounded = s.bounded; few = s.few })

  -- Whatever a payload is, a decoder that keeps its bounds keeps them over it.
  pub decode-IsSound :
      (payload : Text) (d : ChunkDecoder) → IsSound d → IsSound (decode j uuid payload d).1
  unfolding decode
  decode-IsSound payload d s = elim (Bool-cases (text_eq (trim payload) (ascii "[DONE]"))) [
    | inl last ↦ rw last (finish-IsSound d s)
    | inr more ↦ elim (Result-cases (parse_object j (trim payload))) [
      | inr (e, p) ↦ rw (more, p) s
      | inl (root, p) ↦ elim (Option-cases (error_document j root)) [
        | inr (message, q) ↦ rw (more, p, q) s
        | inl q ↦ rw (more, p, q) (document-IsSound root d s)
      ]
    ]
  ]
