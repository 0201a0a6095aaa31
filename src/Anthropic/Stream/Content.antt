-- ===== src/Anthropic/Stream/Content.antt =====
-- What the stream of src/anthropic/stream.rs says is what the events said: the text and thinking of
-- the events, in order, unchanged.
use anthroxy.Prelude.{
  ◌≡◌, refl, ap, ◌∙◌, sym, Bool, true, false, List, [], ◌∷◌, ◌++◌, Text, arith, append_assoc, inl,
  inr, append-nil, Bool-cases, if◌then◌else◌, ◌≢◌,
}
use anthroxy.Ir.{Event, thinking_delta, text_delta, error, done}
use anthroxy.Anthropic.Stream.{
  Delta, thinking_part, text_part, Written, block_delta, closed, StreamEncoder, new, close_open,
  finish_stream, encode, encode_all,
}
use anthroxy.Anthropic.Stream.Whole.{whole}

-- The text and thinking deltas of a stream.
abbrev pub spoken_by : Written → List Delta
spoken_by (block_delta b (thinking_part t)) = thinking_part t ∷ []
spoken_by (block_delta b (text_part t)) = text_part t ∷ []
spoken_by _ = []

abbrev pub spoken : List Written → List Delta
spoken [] = []
spoken (w ∷ ws) = spoken_by w ++ spoken ws

abbrev non_empty : (Text → Delta) → Text → List Delta
non_empty part [] = []
non_empty part (c ∷ t) = part (c ∷ t) ∷ []

-- The text and thinking of events, up to the one that ends the message.
abbrev pub meant : List Event → List Delta
meant [] = []
meant (thinking_delta t ∷ events) = non_empty thinking_part t ++ meant events
meant (text_delta t ∷ events) = non_empty text_part t ++ meant events
meant (error f ∷ events) = []
meant (done ∷ events) = []
meant (_ ∷ events) = meant events

spoken-append : (xs ys : List Written) → spoken (xs ++ ys) ≡ spoken xs ++ spoken ys
spoken-append [] ys = refl
spoken-append (x ∷ xs) ys =
    rw (spoken-append xs ys) (sym (append_assoc (spoken_by x) (spoken xs) (spoken ys)))

spoken-close_open : (e : StreamEncoder) → spoken (close_open e).1 ≡ []
unfolding close_open
spoken-close_open e = ground arith

abbrev meant_by : Event → List Delta
meant_by (thinking_delta t) = non_empty thinking_part t
meant_by (text_delta t) = non_empty text_part t
meant_by _ = []

abbrev pub ends_message : Event → Bool
ends_message (error f) = true
ends_message done = true
ends_message _ = false

meant-cons :
    (event : Event) (events : List Event)
    → meant (event ∷ events) ≡ (if ends_message event then [] else meant_by event ++ meant events)
meant-cons (error f) events = refl
meant-cons done events = refl
meant-cons _ events = refl

last_silent : (event : Event) → ends_message event ≡ true → meant_by event ++ [] ≡ []
last_silent (error f) h = refl
last_silent done h = refl
last_silent (thinking_delta t) h = cc
last_silent (text_delta t) h = cc
last_silent _ h = refl

module _ (uuid : Text) (event : Event) (e : StreamEncoder) where
  -- One event, in a stream that is not over.
  spoken-encode : e.state ≢ closed → spoken (encode uuid event e).1 ≡ meant_by event
  unfolding encode
  spoken-encode = by_event event
    where
      by_event :
          (event : Event) → e.state ≢ closed → spoken (encode uuid event e).1 ≡ meant_by event
      by_event (thinking_delta []) h = ground arith
      by_event (thinking_delta (c ∷ t)) h = ground arith
      by_event (text_delta []) h = ground arith
      by_event (text_delta (c ∷ t)) h = ground arith
      by_event _ h = ground arith

  goes_on : e.state ≢ closed → ends_message event ≡ false → (encode uuid event e).0.state ≢ closed
  unfolding encode
  goes_on = by_event event
    where
      by_event :
          (event : Event)
          → e.state ≢ closed
          → ends_message event ≡ false
          → (encode uuid event e).0.state ≢ closed
      by_event (thinking_delta t) h k = ground arith
      by_event _ h k = ground arith

  is_over : e.state ≢ closed → ends_message event ≡ true → (encode uuid event e).0.state ≡ closed
  unfolding encode
  is_over = by_event event
    where
      by_event :
          (event : Event)
          → e.state ≢ closed
          → ends_message event ≡ true
          → (encode uuid event e).0.state ≡ closed
      by_event (error f) h k = ground arith
      by_event _ h k = ground arith

-- Nothing follows the end of a message.
pub encode_all-closed :
    (uuid : Text) (events : List Event) (e : StreamEncoder)
    → e.state ≡ closed
    → encode_all uuid events e ≡ (e, [])
unfolding encode_all encode
encode_all-closed uuid [] e h = refl
encode_all-closed uuid (event ∷ events) e h = ground (arith, encode_all-closed uuid events e h)

spoken-encode_all :
    (uuid : Text) (events : List Event) (e : StreamEncoder)
    → e.state ≢ closed
    → spoken (encode_all uuid events e).1 ≡ meant events
unfolding encode_all
spoken-encode_all uuid [] e h = refl
spoken-encode_all uuid (event ∷ events) e h =
    let e' = (encode uuid event e).0 in
    rw
      (
        spoken-append (encode uuid event e).1 (encode_all uuid events e').1,
        spoken-encode uuid event e h,
        meant-cons event events,
      )
      (elim (Bool-cases (ends_message event)) [
        | inl last ↦
            rw (last, encode_all-closed uuid events e' (is_over uuid event e h last))
              (last_silent event last)
        | inr more ↦ rw (more, spoken-encode_all uuid events e' (goes_on uuid event e h more)) refl
      ])

spoken-finish_stream : (e : StreamEncoder) → spoken (finish_stream e).1 ≡ []
unfolding finish_stream
spoken-finish_stream e = ground arith

-- The text and thinking deltas that a stream carries are those of the events up to the first `done`
-- or `error`, in their order and unchanged; only empty ones are left out.
pub spoken-whole :
    (uuid fallback : Text) (events : List Event)
    → spoken (whole uuid fallback events) ≡ meant events
unfolding whole
spoken-whole uuid fallback events =
    let (e, out) = encode_all uuid events (new fallback) in
    spoken-append out (finish_stream e).1
    ∙ ap (λ s. spoken out ++ s) (spoken-finish_stream e)
    ∙ append-nil (spoken out)
    ∙ spoken-encode_all uuid events (new fallback) (λ h. cc)
