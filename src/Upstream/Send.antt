-- ===== src/Upstream/Send.antt =====
-- src/upstream/client.rs: the loop of `UpstreamClient::send`. What the credential source and the
-- backend answer at each attempt is the argument `w`; clocks and log lines are left out.
pub mod Ends
mod Tests
use anthroxy.Prelude.{
  ℕ, zero, suc, ◌+◌, ◌%◌, ◌^◌, ◌==◌, Bool, true, false, ◌&&◌, ◌||◌, not, Option, none, some, List,
  [], ◌∷◌, if◌then◌else◌, Text, Result, ok, err,
}
use anthroxy.Upstream.Retry.{
  RetryPolicy, Decision, retry, give_up, TransportError, on_status, on_transport_error,
}

-- `TimeoutClock`
pub data TimeoutClock : Type 0 where
  non_stream stream_first_byte stream_idle : TimeoutClock

-- How one request to the backend came out.
pub data Answer : Type 0 where
  -- The deadline for the headers passed.
  elapsed : Answer
  -- The status of a response.
  answered : ℕ → Answer
  broke : TransportError → Answer

-- The backend of a request: `credential()` and the answer, by the number of the attempt.
pub record World : Type 0 where
  pub credential : ℕ → Result Text (Option Text)
  pub answer : ℕ → Answer
  pub is_refreshable : Bool
  -- Whether the client asked for an event stream.
  pub stream : Bool

-- What `send` returns.
pub data Sent : Type 0 where
  -- status, attempts, credential_refreshed
  response : ℕ → ℕ → Bool → Sent
  credential_error : Text → Sent
  transport : ℕ → TransportError → Sent
  timed_out : TimeoutClock → Sent

-- What it does on the way, past a request: `invalidate` of a credential, or a wait.
pub data Effect : Type 0 where
  -- The number of the attempt and the credential that it carries.
  sent : ℕ → Option Text → Effect
  invalidated : Text → Effect
  slept : ℕ → Effect

-- The variables of the loop.
pub record Loop : Type 0 where
  pub attempt : ℕ
  pub failures : ℕ
  pub credential_refreshed : Bool

abbrev pub started : Loop
started = record { attempt = 0; failures = 0; credential_refreshed = false }

-- How a pass of the loop ends: it returns with nothing sent or after the request, or goes on.
pub data Turn : Type 0 where
  unsent : Sent → Turn
  returned : Option Text → Sent → Turn
  again : Option Text → Effect → Loop → Turn

module _ (p : RetryPolicy) (w : World) where
  abbrev pub clock : TimeoutClock
  clock = if w.stream then stream_first_byte else non_stream

  -- A wait counts as a failure.
  abbrev pub decide : Option Text → Sent → Loop → Decision → Turn
  decide credential result l give_up = returned credential result
  decide credential result l (retry d) =
      again credential (slept d) (record l { failures = (l.failures + 1) % 2 ^ 32 })

  -- A 401 or 403 that the credential may be to blame for: the one that was rejected.
  abbrev pub rejected : Option Text → ℕ → Loop → Option Text
  rejected credential status l =
      if (status == 401 || status == 403) && (not l.credential_refreshed && w.is_refreshable)
      then credential
      else none

  -- The match on the outcome; `l` has counted the attempt.
  abbrev pub outcome : Option Text → Answer → Loop → Turn
  outcome credential elapsed l = returned credential (timed_out clock)
  outcome credential (answered status) l = elim (rejected credential status l) [
    | some c ↦ again credential (invalidated c) (record l { credential_refreshed = true })
    | none ↦
        decide credential (response status l.attempt l.credential_refreshed) l
          (on_status p ((l.failures + 1) % 2 ^ 32) status)
  ]
  outcome credential (broke e) l =
      decide credential (transport l.attempt e) l
        (on_transport_error p ((l.failures + 1) % 2 ^ 32) e)

  -- One pass of the loop.
  unfoldable pub turn : Loop → Turn
  unfolding on_status on_transport_error
  turn l =
      let l' = record l { attempt = (l.attempt + 1) % 2 ^ 32 } in
      elim (w.credential l'.attempt) [
        | err e ↦ unsent (credential_error e)
        | ok credential ↦ outcome credential (w.answer l'.attempt) l'
      ]

  -- The effects of a pass before those of the later ones.
  abbrev pub taken : ℕ → Turn → (Loop → Option Sent × List Effect) → Option Sent × List Effect
  taken n (unsent r) rest = (some r, [])
  taken n (returned c r) rest = (some r, sent n c ∷ [])
  taken n (again c e l) rest = let (r, more) = rest l in (r, sent n c ∷ e ∷ more)

  -- At most so many passes.
  unfoldable pub send_from : ℕ → Loop → Option Sent × List Effect
  unfolding turn
  send_from zero l = (none, [])
  send_from (suc fuel) l = taken ((l.attempt + 1) % 2 ^ 32) (turn l) (send_from fuel)

  -- `UpstreamClient::send`
  unfoldable pub send : Option Sent × List Effect
  unfolding send_from
  send = send_from (p.max_retries + 2) started
