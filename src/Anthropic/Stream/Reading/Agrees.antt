-- ===== src/Anthropic/Stream/Reading/Agrees.antt =====
-- The streamed message and `Message::from_events` agree.
use anthroxy.Prelude.{
  ◌+◌, ◌^◌, ◌<◌, ◌≡◌, ap, ◌∙◌, sym, true, ◌||◌, List, [], ◌∷◌, ◌++◌, append_assoc, append-nil,
  length, Text, ok, err, arith, Bool-cases, inl, inr,
}
use anthroxy.Ir.{Event, error, done, Failure}
use anthroxy.Ir.Messages.{ended, fold_from, from_events}
use anthroxy.Anthropic.Errors.{detail_of}
use anthroxy.Anthropic.Stream.{Written, StreamEncoder, closed, finish_stream, encode, encode_all}
use anthroxy.Anthropic.Stream.Content.{ends_message, encode_all-closed}
use anthroxy.Anthropic.Stream.Whole.{whole}
use anthroxy.Anthropic.Stream.Reading.{nothing_read, read_events, read_events-append}
use anthroxy.Anthropic.Stream.Reading.Steps.{At, IsSame, Fits, encoder_at, folded_at, reading_at}
use anthroxy.Anthropic.Stream.Reading.Turns.{event-Goes}
use anthroxy.Anthropic.Stream.Reading.Ends.{
  answers, expected, finish-agrees, answers-cons, fold_from-Goes, at_first, at_first-Fits,
  finish_stream-closed, finish_stream-ends, encode-done, encode-error,
}

module _ (uuid fallback : Text) where
  -- What is written from a point on.
  rest : List Event → StreamEncoder → List Written
  rest events e = (encode_all uuid events e).1 ++ (finish_stream (encode_all uuid events e).0).1

  rest-cons :
      (event : Event) (events : List Event) (e : StreamEncoder)
      → rest (event ∷ events) e ≡ (encode uuid event e).1 ++ rest events (encode uuid event e).0
  unfolding rest encode_all
  rest-cons event events e =
      let e' = (encode uuid event e).0 in
      append_assoc (encode uuid event e).1 (encode_all uuid events e').1
        (finish_stream (encode_all uuid events e').0).1

  rest-closed : (events : List Event) (e : StreamEncoder) → e.state ≡ closed → rest events e ≡ []
  unfolding rest
  rest-closed events e h = rw (encode_all-closed uuid events e h) (finish_stream-closed e h)

  -- The end of the message, at `done`.
  done-agrees :
      (events : List Event) (id model : Text) (a : At)
      → IsSame a.calls a.positions
      → read_events (rest (done ∷ events) (encoder_at fallback a)) (reading_at a)
        ≡ expected a.begun (ok (ended (folded_at id model a)))
  done-agrees events id model a same =
      let e = encoder_at fallback a in
      let after : rest events (encode uuid done e).0 ≡ [] =
        rest-closed events (encode uuid done e).0
          (ap (λ out. out.0.state) (encode-done uuid fallback a) ∙ finish_stream-ends fallback a) in
      ap (λ ws. read_events ws (reading_at a))
        (rest-cons done events e
          ∙ ap (λ ws. (encode uuid done e).1 ++ ws) after
          ∙ append-nil (encode uuid done e).1
          ∙ ap (λ out. out.1) (encode-done uuid fallback a))
      ∙ finish-agrees fallback id model a same

  -- A failure, at `error`.
  error-agrees :
      (f : Failure) (events : List Event) (a : At)
      → read_events (rest (error f ∷ events) (encoder_at fallback a)) (reading_at a)
        ≡ err (detail_of f)
  unfolding read_events
  error-agrees f events a =
      ap (λ ws. read_events ws (reading_at a))
        (rest-cons (error f) events (encoder_at fallback a)
          ∙ ap (λ out. out ++ rest events (encode uuid (error f) (encoder_at fallback a)).0)
              (encode-error uuid fallback f a))

  last-agrees :
      (event : Event) (events : List Event) (id model : Text) (a : At)
      → IsSame a.calls a.positions
      → ends_message event ≡ true
      → read_events (rest (event ∷ events) (encoder_at fallback a)) (reading_at a)
        ≡ expected
            (answers (event ∷ events) || a.begun)
            (fold_from (event ∷ events) (folded_at id model a))
  unfolding fold_from answers
  last-agrees (error f) events id model a same h = error-agrees f events a
  last-agrees done events id model a same h = done-agrees events id model a same
  last-agrees _ events id model a same h = cc

  nil-agrees :
      (id model : Text) (a : At)
      → IsSame a.calls a.positions
      → read_events (rest [] (encoder_at fallback a)) (reading_at a)
        ≡ expected (answers [] || a.begun) (fold_from [] (folded_at id model a))
  unfolding rest answers fold_from encode_all
  nil-agrees id model a same = finish-agrees fallback id model a same

  agrees_from :
      (events : List Event) (id model : Text) (a : At)
      → Fits a
      → length a.blocks + length events < 2 ^ 32
      → read_events (rest events (encoder_at fallback a)) (reading_at a)
        ≡ expected (answers events || a.begun) (fold_from events (folded_at id model a))
  agrees_from [] id model a fits bound = nil-agrees id model a fits.1
  agrees_from (event ∷ events) id model a fits bound = elim (Bool-cases (ends_message event)) [
    | inl last ↦ last-agrees event events id model a fits.1 last
    | inr more ↦
        let goes =
          event-Goes uuid fallback a.blocks a.calls a.positions a.stop a.counts fits.1
            (omega (arith, bound)) event a.begun a.open_last a.open_at fits.0 more in
        let (b, g) = goes in
        let (encoded, was_read, stepped, fits', len, began) = g in
        let (id', model', step_e) = stepped id model in
        let e = encoder_at fallback a in
        ap (λ ws. read_events ws (reading_at a)) (rest-cons event events e)
        ∙ read_events-append (encode uuid event e).1 (rest events (encode uuid event e).0)
            (reading_at a) (reading_at b) was_read
        ∙ ap (λ e'. read_events (rest events e') (reading_at b)) encoded
        ∙ agrees_from events id' model' b fits' (omega (arith, bound, len))
        ∙ ap (λ r. expected (answers events || b.begun) r)
            (sym
              (fold_from-Goes event events (folded_at id model a) (folded_at id' model' b) step_e))
        ∙ ap (λ began'. expected began' (fold_from (event ∷ events) (folded_at id model a)))
            (ground (arith, began, answers-cons event events more))
  ]

  -- A client folds out of the stream what `from_events` folds out of the events: the same blocks in
  -- the same order, the same stop reason and the same counts, or the error of the same failure; only
  -- where no event begins the message, whose fold is empty, has the stream an error instead. The
  -- events are fewer than 2 ^ 32, the range of a block's index.
  pub read_events-whole :
      (events : List Event)
      → length events < 2 ^ 32
      → read_events (whole uuid fallback events) nothing_read
        ≡ expected (answers events) (from_events events)
  unfolding whole rest from_events
  read_events-whole events bound =
      agrees_from events [] [] at_first at_first-Fits (omega (arith, bound))
      ∙ ap (λ began. expected began (from_events events)) (ground arith)
