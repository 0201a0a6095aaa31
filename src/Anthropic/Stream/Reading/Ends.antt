-- ===== src/Anthropic/Stream/Reading/Ends.antt =====
-- The ends of a streamed message, and what a client is to read then.
use anthroxy.Prelude.{
  ◌≡◌, refl, ap, Bool, true, false, ◌||◌, Option, none, some, List, [], ◌∷◌, if◌then◌else◌, Text,
  ascii, find, Result, ok, err, arith, ◌≢◌,
}
use anthroxy.Ir.{end_turn, no_usage, Event, error, done, Failure}
use anthroxy.Ir.Failures.{upstream_failure}
use anthroxy.Ir.Messages.{Message, Folded, step, ended, fold_from}
use anthroxy.Anthropic.Errors.{ErrorDetail, detail_of}
use anthroxy.Anthropic.Stream.{
  error_event, Open, StreamEncoder, closed, finish_stream, encode, lookup,
}
use anthroxy.Anthropic.Stream.Content.{ends_message}
use anthroxy.Anthropic.Stream.Reading.{Reading, read_events}
use anthroxy.Anthropic.Stream.Reading.Steps.{
  At, IsOpen, IsSame, Fits, begins, encoder_at, folded_at, reading_at,
}

-- Some event of the message, before its end, has the stream begin.
unfoldable pub answers : List Event → Bool
answers [] = false
answers (error f ∷ events) = false
answers (done ∷ events) = false
answers (event ∷ events) = begins event || answers events

-- What a message says, but its id and its model.
abbrev pub told : Message → Reading
told m = record { blocks = m.blocks; stop_read = m.stop_reason; usage_read = m.total_usage }

-- A stream that ends before it began fails.
abbrev pub no_response : ErrorDetail
no_response = detail_of (upstream_failure (ascii "backend closed the stream without a response"))

abbrev pub expected : Bool → Result Failure Message → Result ErrorDetail Reading
expected began (err f) = err (detail_of f)
expected began (ok m) = if began then ok (told m) else err no_response

pub finish-agrees :
    (fallback id model : Text) (a : At)
    → IsSame a.calls a.positions
    → read_events (finish_stream (encoder_at fallback a)).1 (reading_at a)
      ≡ expected a.begun (ok (ended (folded_at id model a)))
unfolding finish_stream read_events IsSame detail_of
finish-agrees fallback id model a same = by_state a.begun a.open_at
  where
    by_state :
        (begun : Bool) (o : Option Open)
        → read_events
            (finish_stream (encoder_at fallback (record a { begun = begun; open_at = o }))).1
            (reading_at a)
          ≡ expected begun (ok (ended (folded_at id model a)))
    by_state true none = simp (same.1) refl
    by_state true (some p) = simp (same.1) refl
    by_state false none = refl
    by_state false (some p) = refl

-- Before the end, the encoder is not closed.
not_closed : (fallback : Text) (a : At) → (encoder_at fallback a).state ≢ closed
not_closed fallback a = by_begun a.begun
  where
    by_begun : (begun : Bool) → (encoder_at fallback (record a { begun = begun })).state ≢ closed
    by_begun true h = cc
    by_begun false h = cc

pub answers-cons :
    (event : Event) (events : List Event)
    → ends_message event ≡ false
    → answers (event ∷ events) ≡ begins event || answers events
unfolding answers
answers-cons (error f) events h = cc
answers-cons done events h = cc
answers-cons _ events h = refl

pub fold_from-Goes :
    (event : Event) (events : List Event) (f f' : Folded)
    → step event f ≡ ok (some f')
    → fold_from (event ∷ events) f ≡ fold_from events f'
unfolding fold_from
fold_from-Goes event events f f' e =
    ap
      (λ r. elim r [
        | err failure ↦ err failure
        | ok none ↦ ok (ended f)
        | ok (some g) ↦ fold_from events g
      ])
      e

abbrev pub at_first : At
at_first = record {
  begun = false;
  blocks = [];
  open_at = none;
  open_last = false;
  calls = [];
  positions = [];
  stop = end_turn;
  counts = no_usage;
}

pub at_first-Fits : Fits at_first
unfolding IsOpen IsSame lookup find
at_first-Fits = (refl, ((λ k. refl), refl))

pub finish_stream-closed : (e : StreamEncoder) → e.state ≡ closed → (finish_stream e).1 ≡ []
unfolding finish_stream
finish_stream-closed e h = ground (arith, h)

pub finish_stream-ends :
    (fallback : Text) (a : At) → (finish_stream (encoder_at fallback a)).0.state ≡ closed
unfolding finish_stream
finish_stream-ends fallback a = by_begun a.begun
  where
    by_begun :
        (begun : Bool)
        → (finish_stream (encoder_at fallback (record a { begun = begun }))).0.state ≡ closed
    by_begun true = refl
    by_begun false = refl

pub encode-done :
    (uuid fallback : Text) (a : At)
    → encode uuid done (encoder_at fallback a) ≡ finish_stream (encoder_at fallback a)
unfolding encode
encode-done uuid fallback a = by_begun a.begun
  where
    by_begun :
        (begun : Bool)
        → encode uuid done (encoder_at fallback (record a { begun = begun }))
          ≡ finish_stream (encoder_at fallback (record a { begun = begun }))
    by_begun true = refl
    by_begun false = refl

pub encode-error :
    (uuid fallback : Text) (f : Failure) (a : At)
    → (encode uuid (error f) (encoder_at fallback a)).1 ≡ error_event (detail_of f) ∷ []
unfolding encode
encode-error uuid fallback f a = by_begun a.begun
  where
    by_begun :
        (begun : Bool)
        → (encode uuid (error f) (encoder_at fallback (record a { begun = begun }))).1
          ≡ error_event (detail_of f) ∷ []
    by_begun true = refl
    by_begun false = refl
