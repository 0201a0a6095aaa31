-- ===== src/Translate/Responses.antt =====
-- src/translate/response.rs: a completed document answered as a document, beside the stream that
-- it may be answered with.
mod Tests
use anthroxy.Prelude.{
  ℕ, ◌≡◌, ◌∙◌, ap, refl, sym, ◌^◌, ◌<◌, Option, some, none, true, List, [], ◌∷◌, map, length, Text,
  inl, inr, ◌⊎◌, Option-cases, Result, ok, err, Result-cases, arith,
}
use anthroxy.Ir.{Event, Failure, error}
use anthroxy.Ir.Messages.{Message, Block, thinking, text, tool_use, from_events}
use anthroxy.Json.{Json}
use anthroxy.OpenAi.{parse_object, first_choice}
use anthroxy.OpenAi.Errors.{error_document, decode_error}
use anthroxy.OpenAi.Response.{
  ResponseError, backend, unreadable, no_choices, document, decode_response,
}
use anthroxy.Anthropic.Stream.{Written}
use anthroxy.Anthropic.Stream.Whole.{whole}
use anthroxy.Anthropic.Stream.Reading.{Reading, nothing_read, read_events}
use anthroxy.Anthropic.Stream.Reading.Ends.{answers, expected, told}
use anthroxy.Anthropic.Stream.Reading.Agrees.{read_events-whole}
use anthroxy.Anthropic.Messages.{
  Content, thinking_content, text_content, tool_content, tool_input, MessageDocument, content_of,
  encode_message,
}
use anthroxy.Translate.{document_stream}
use anthroxy.Translate.Documents.{document_stream-ok}

module _ (j : Json) (message : Text) (uuid : ℕ → Text) where
  -- `response`
  unfoldable pub response : Text → Text → Result ResponseError (MessageDocument j)
  unfolding decode_response from_events encode_message
  response body fallback_model = elim (decode_response j uuid body) [
    | err e ↦ err e
    | ok events ↦ elim (from_events events) [
      | err failure ↦ err (backend failure)
      | ok m ↦ ok (encode_message j m fallback_model message)
    ]
  ]

  -- What a document holds for the arguments of a call: the object that they are, or none.
  pub data ReadsAs (arguments : Text) : Option j.Object → Type 0 where
    is_object :
        (v : j.Value) (o : j.Object)
        → j.from_slice arguments ≡ ok v
        → j.as_object v ≡ some o
        → ReadsAs arguments (some o)
    is_none :
        ((v : j.Value) (o : j.Object) → j.from_slice arguments ≡ ok v → j.as_object v ≡ some o → ⊥)
        → ReadsAs arguments none

  -- An item of a document and a block that was streamed say the same.
  pub data SaysBlock : Content j → Block → Type 0 where
    same_thinking : (t : Text) → SaysBlock (thinking_content t) (thinking t)
    same_text : (t : Text) → SaysBlock (text_content t) (text t)
    same_call :
        (id name arguments : Text) (input : Option j.Object)
        → ReadsAs arguments input
        → SaysBlock (tool_content id name input) (tool_use id name arguments)

  -- Item for item, in order.
  pub data SaysAll : List (Content j) → List Block → Type 0 where
    both_end : SaysAll [] []
    both_say :
        (c : Content j) (b : Block) (cs : List (Content j)) (bs : List Block)
        → SaysBlock c b
        → SaysAll cs bs
        → SaysAll (c ∷ cs) (b ∷ bs)

  tool_input-ReadsAs : (arguments : Text) → ReadsAs arguments (tool_input j arguments)
  unfolding tool_input
  tool_input-ReadsAs arguments = elim (Result-cases (j.from_slice arguments)) [
    | inr (why, e) ↦ rw (e, tool_input) (is_none (λ v o f g. cc))
    | inl (v, e) ↦ elim (Option-cases (j.as_object v)) [
      | inr (o, f) ↦
          let same : tool_input j arguments ≡ some o = ground (arith, e, f) in
          rw same (is_object v o e f)
      | inl f ↦
          let same : tool_input j arguments ≡ none = ground (arith, e, f) in
          rw same (
            is_none (λ w o g read.
              let again : v ≡ w = cc in
              let wrong : none ≡ some o = sym f ∙ ap j.as_object again ∙ read in cc))
    ]
  ]

  content_of-SaysBlock : (b : Block) → SaysBlock (content_of j b) b
  unfolding content_of
  content_of-SaysBlock (thinking t) = same_thinking t
  content_of-SaysBlock (text t) = same_text t
  content_of-SaysBlock (tool_use id name arguments) =
      same_call id name arguments (tool_input j arguments) (tool_input-ReadsAs arguments)

  map-SaysAll : (bs : List Block) → SaysAll (map (content_of j) bs) bs
  map-SaysAll [] = both_end
  map-SaysAll (b ∷ bs) = both_say (content_of j b) b _ bs (content_of-SaysBlock b) (map-SaysAll bs)

  -- The document and the stream say the same of a body: content, stop reason and counts.
  abbrev pub SaysTheSame : MessageDocument j → Reading → Type 0
  SaysTheSame doc r =
      SaysAll doc.content r.blocks × (doc.stop_reason ≡ r.stop_read) × (doc.usage ≡ r.usage_read)

  response-ok :
      (body fallback : Text) (events : List Event) (doc : MessageDocument j)
      → decode_response j uuid body ≡ ok events
      → response body fallback ≡ ok doc
      → (m : Message) × (from_events events ≡ ok m) × (doc ≡ encode_message j m fallback message)
  unfolding response
  response-ok body fallback events doc e r = elim (Result-cases (from_events events)) [
    | inr (failure, bad) ↦
        let made : response body fallback ≡ err (backend failure) = rw (response, e, bad) refl in
        let no : ⊥ = cc in elim no [ ]
    | inl (m, good) ↦
        let made : response body fallback ≡ ok (encode_message j m fallback message) =
          rw (response, e, good) refl in
        let both : ok doc ≡ ok (encode_message j m fallback message) = sym r ∙ made in (m, good, cc)
  ]

  -- `decode_response` past the parse of the body, and past the look for an error.
  abbrev decoded_from : Text → j.Object → Option Text → Result ResponseError (List Event)
  decoded_from body root (some said) = ok (error (decode_error j none body) ∷ [])
  decoded_from body root none = elim (first_choice j root) [
    | none ↦ err no_choices
    | some choice ↦ ok (document j uuid root choice)
  ]

  abbrev decoded : Text → j.Object → Result ResponseError (List Event)
  decoded body root = decoded_from body root (error_document j root)

  -- A body that decodes begins a message, or is the error of a backend.
  decode_response-answers :
      (body : Text) (events : List Event)
      → decode_response j uuid body ≡ ok events
      → (answers events ≡ true) ⊎ ((f : Failure) × (events ≡ error f ∷ []))
  unfolding decode_response document answers
  decode_response-answers body events e = elim (Result-cases (parse_object j body)) [
    | inr (why, bad) ↦
        let made : decode_response j uuid body ≡ err (unreadable why) =
          rw (decode_response, bad) refl in
        let no : ⊥ = cc in elim no [ ]
    | inl (root, parsed) ↦ elim (Option-cases (error_document j root)) [
      | inr (said, failed) ↦
          let made : decode_response j uuid body ≡ ok (error (decode_error j none body) ∷ []) =
            ap (λ p. elim p [ err why ↦ err (unreadable why) | ok o ↦ decoded body o ]) parsed
            ∙ ap (λ said'. decoded_from body root said') failed in
          let both : ok events ≡ ok (error (decode_error j none body) ∷ []) = sym e ∙ made in
          inr (decode_error j none body, cc)
      | inl fine ↦ elim (Option-cases (first_choice j root)) [
        | inl absent ↦
            let made : decode_response j uuid body ≡ err no_choices =
              rw (decode_response, parsed, fine, absent) refl in
            let no : ⊥ = cc in elim no [ ]
        | inr (choice, chosen) ↦
            let made : decode_response j uuid body ≡ ok (document j uuid root choice) =
              rw (decode_response, parsed, fine, chosen) refl in
            let both : ok events ≡ ok (document j uuid root choice) = sym e ∙ made in
            let same : events ≡ document j uuid root choice = cc in inl (ap answers same)
      ]
    ]
  ]

  -- A body that decodes to fewer than 2 ^ 32 events and is answered with a document is answered as a
  -- stream with the same thinking, texts and tool calls in the same order, the same stop reason and
  -- counts. The stream has the text of a call's arguments; the document has the object that this text
  -- reads as, or the empty one when it is no object.
  pub response_streamed :
      (body fallback : Text) (events : List Event) (doc : MessageDocument j) (out : List Written)
      → decode_response j uuid body ≡ ok events
      → length events < 2 ^ 32
      → response body fallback ≡ ok doc
      → document_stream j message uuid body fallback ≡ ok out
      → (r : Reading) × (read_events out nothing_read ≡ ok r) × SaysTheSame doc r
  unfolding encode_message from_events
  response_streamed body fallback events doc out e bound r s =
      let (m, folded, same) = response-ok body fallback events doc e r in
      let both : ok (whole message fallback events) ≡ ok out =
        sym (document_stream-ok j message uuid body fallback events e) ∙ s in
      let written : whole message fallback events ≡ out = cc in
      elim (decode_response-answers body events e) [
        | inl began ↦ (
          told m,
          ap (λ ws. read_events ws nothing_read) (sym written)
              ∙ read_events-whole message fallback events bound
              ∙ ap (λ a. expected a (from_events events)) began
              ∙ ap (expected true) folded,
          rw same (map-SaysAll m.blocks, refl, refl),
        )
        | inr (f, failed) ↦
            let wrong : err f ≡ ok m = sym (ap from_events failed) ∙ folded in
            let no : ⊥ = cc in elim no [ ]
      ]
