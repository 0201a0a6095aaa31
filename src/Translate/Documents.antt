-- ===== src/Translate/Documents.antt =====
-- Completed documents of src/translate/response.rs, answered as a stream.
use anthroxy.Prelude.{ℕ, ◌≡◌, ◌∙◌, refl, sym, some, List, Text, inl, inr, ok, err, Result-cases}
use anthroxy.Ir.{Event}
use anthroxy.Json.{Json}
use anthroxy.OpenAi.Response.{ResponseError, decode_response}
use anthroxy.Anthropic.Stream.{Written}
use anthroxy.Anthropic.Stream.Grammar.{before, ended, accept_all}
use anthroxy.Anthropic.Stream.Whole.{whole, whole_accepted}
use anthroxy.Translate.{document_stream}

module _ (j : Json) (message : Text) (uuid : ℕ → Text) where
  document_stream-err :
      (body fallback : Text) (why : ResponseError)
      → decode_response j uuid body ≡ err why
      → document_stream j message uuid body fallback ≡ err why
  unfolding document_stream
  document_stream-err body fallback why e = rw (document_stream, e) refl

  pub document_stream-ok :
      (body fallback : Text) (events : List Event)
      → decode_response j uuid body ≡ ok events
      → document_stream j message uuid body fallback ≡ ok (whole message fallback events)
  unfolding document_stream whole
  document_stream-ok body fallback events e = rw (document_stream, e) refl

  -- A completed document is answered with one complete message, when it is one that decodes.
  pub document_accepted :
      (body fallback : Text) (out : List Written)
      → document_stream j message uuid body fallback ≡ ok out
      → accept_all out before ≡ some ended
  document_accepted body fallback out e = elim (Result-cases (decode_response j uuid body)) [
    | inr (why, bad) ↦
        let no : ok out ≡ err why = sym e ∙ document_stream-err body fallback why bad in cc
    | inl (events, good) ↦
        let same : whole message fallback events ≡ out =
          let both : ok (whole message fallback events) ≡ ok out =
            sym (document_stream-ok body fallback events good) ∙ e in
          cc in
        rw⁻¹ same (whole_accepted message fallback events)
  ]
