-- ===== src/Upstream/Timed.antt =====
-- src/upstream/timeout.rs: the clocks on an upstream body. An `Instant` is a number; a `Sleep` is
-- ready once its time has come.
mod Tests
use anthroxy.Prelude.{
  ℕ, ◌+◌, ◌≡◌, refl, Bool, true, false, ◌&&◌, not, Option, none, some, List, [], ◌∷◌, if◌then◌else◌,
  leb, Text, Result, ok, err, arith, Bool-cases, Option-cases, inl, inr,
}
use anthroxy.Upstream.Send.{TimeoutClock, non_stream, stream_first_byte, stream_idle}
use anthroxy.Upstream.Bodies.{BodyError, timed_out, upstream}

pub record BodyClock : Type 0 where
  pub stream : Bool
  pub deadline : ℕ
  pub idle : ℕ

-- `TimedBody`, without the inner stream.
pub record TimedBody : Type 0 where
  pub clock : BodyClock
  pub got_first : Bool
  pub sleep : Option ℕ

-- `TimedBody::new`
abbrev pub new : BodyClock → TimedBody
new clock = record { clock = clock; got_first = false; sleep = none }

-- `waiting`
unfoldable pub waiting : TimedBody → TimeoutClock
waiting t =
    if not t.clock.stream
    then non_stream
    else (if not t.got_first then stream_first_byte else stream_idle)

-- What the inner stream answers to a poll.
pub data Inner : Type 0 where
  chunk broken : Text → Inner
  closed not_ready : Inner

pub data Polled : Type 0 where
  pending finished : Polled
  item : Result BodyError Text → Polled

-- When the sleep ends: the one that there is, or the one that is set now.
abbrev pub armed : ℕ → TimedBody → ℕ
armed now t = elim t.sleep [
  | some until ↦ until
  | none ↦ if t.clock.stream && t.got_first then now + t.clock.idle else t.clock.deadline
]

-- `poll_next`, at a time.
unfoldable pub poll_next : ℕ → Inner → TimedBody → Polled × TimedBody
unfolding waiting
poll_next now (chunk bytes) t = (item (ok bytes), record t { got_first = true; sleep = none })
poll_next now (broken e) t = (item (err (upstream e)), t)
poll_next now closed t = (finished, t)
poll_next now not_ready t = (
  if leb (armed now t) now then item (err (timed_out (waiting t))) else pending,
  record t { sleep = some (armed now t) },
)

-- The polls so far, the latest first, each with its time.
abbrev pub History : Type 0
History = List (ℕ × Inner)

abbrev pub after : BodyClock → History → TimedBody
after clock [] = new clock
after clock ((now, i) ∷ older) = (poll_next now i (after clock older)).1

-- Whether a chunk has come, and since when the body is waited for: the first poll that found
-- nothing since the latest chunk.
abbrev pub heard : History → Bool
heard [] = false
heard ((now, chunk bytes) ∷ older) = true
heard ((now, broken e) ∷ older) = heard older
heard ((now, closed) ∷ older) = heard older
heard ((now, not_ready) ∷ older) = heard older

abbrev pub at_first : Option ℕ → ℕ → ℕ
at_first none now = now
at_first (some earlier) now = earlier

abbrev pub quiet_since : History → Option ℕ
quiet_since [] = none
quiet_since ((now, chunk bytes) ∷ older) = none
quiet_since ((now, broken e) ∷ older) = quiet_since older
quiet_since ((now, closed) ∷ older) = quiet_since older
quiet_since ((now, not_ready) ∷ older) = some (at_first (quiet_since older) now)

-- The clock that runs, and when it runs out.
abbrev pub running : BodyClock → Bool → TimeoutClock
running clock seen =
    if clock.stream then (if seen then stream_idle else stream_first_byte) else non_stream

abbrev pub due : BodyClock → Bool → ℕ → ℕ
due clock seen since = if clock.stream && seen then since + clock.idle else clock.deadline

abbrev due_at : BodyClock → Bool → Option ℕ → Option ℕ
due_at clock seen none = none
due_at clock seen (some since) = some (due clock seen since)

-- The body after its polls.
abbrev timed : BodyClock → History → TimedBody
timed clock h = record {
  clock = clock;
  got_first = heard h;
  sleep = due_at clock (heard h) (quiet_since h);
}

armed-timed :
    (clock : BodyClock) (h : History) (now : ℕ)
    → armed now (timed clock h) ≡ due clock (heard h) (at_first (quiet_since h) now)
armed-timed clock h now = elim (Option-cases (quiet_since h)) [
  | inl e ↦ rw e refl
  | inr (since, e) ↦ rw e refl
]

after_lem : (clock : BodyClock) (h : History) → after clock h ≡ timed clock h
unfolding poll_next
after_lem clock [] = refl
after_lem clock ((now, chunk bytes) ∷ older) = simp (after_lem clock older) refl
after_lem clock ((now, broken e) ∷ older) = after_lem clock older
after_lem clock ((now, closed) ∷ older) = after_lem clock older
after_lem clock ((now, not_ready) ∷ older) =
    simp (after_lem clock older, armed-timed clock older now) refl

waiting-timed :
    (clock : BodyClock) (h : History) → waiting (timed clock h) ≡ running clock (heard h)
unfolding waiting
waiting-timed clock h = ground arith

-- When nothing has come, the body times out exactly when the clock that runs has run out: the
-- deadline, until the first byte of a stream or all along without one, then the idle time from the
-- first poll that found nothing since the latest chunk. The error names that clock.
pub poll_next-after :
    (clock : BodyClock) (h : History) (now : ℕ)
    → (poll_next now not_ready (after clock h)).0 ≡ (
        if leb (due clock (heard h) (at_first (quiet_since h) now)) now
        then item (err (timed_out (running clock (heard h))))
        else pending)
unfolding poll_next
poll_next-after clock h now =
    simp (after_lem clock h, armed-timed clock h now, waiting-timed clock h) refl
