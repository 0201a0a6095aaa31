-- ===== src/Upstream/Send/Ends.antt =====
-- The loop of `send` in src/upstream/client.rs ends, within its budget.
use anthroxy.Prelude.{
  ℕ, zero, suc, ◌+◌, ◌%◌, ◌^◌, ◌≡◌, ◌≤◌, ◌<◌, refl, Bool, true, false, ◌&&◌, not, Option, some,
  List, [], ◌∷◌, Text, ap, ◌∙◌, arith, Option-cases, Result-cases, inl, inr,
}
use anthroxy.Upstream.Retry.{
  RetryPolicy, Decision, retry, give_up, max_backoff, Allowed, on_status-Allowed,
  on_transport_error-Allowed,
}
use anthroxy.Upstream.Send.{
  Answer, elapsed, answered, broke, World, Sent, response, credential_error, transport, timed_out,
  Effect, sent, invalidated, slept, Loop, started, again, decide, rejected, outcome, turn, taken,
  send_from, send,
}

abbrev one_if : Bool → ℕ
one_if true = 1
one_if false = 0

one_if_bounded : (b : Bool) → one_if b ≤ 1
one_if_bounded true = omega arith
one_if_bounded false = omega arith

-- Requests sent, and credentials given up.
abbrev pub requests : List Effect → ℕ
requests [] = 0
requests (sent n c ∷ es) = suc (requests es)
requests (invalidated c ∷ es) = requests es
requests (slept d ∷ es) = requests es

abbrev pub refreshes : List Effect → ℕ
refreshes [] = 0
refreshes (invalidated c ∷ es) = suc (refreshes es)
refreshes (sent n c ∷ es) = refreshes es
refreshes (slept d ∷ es) = refreshes es

abbrev pub Short : List Effect → Type 0
Short [] = Unit
Short (slept d ∷ es) = (d ≤ max_backoff) × Short es
Short (sent n c ∷ es) = Short es
Short (invalidated c ∷ es) = Short es

-- The attempts that a result reports.
abbrev pub Reports : Sent → ℕ → Type 0
Reports (response status n refreshed) made = n ≡ made
Reports (transport n e) made = n ≡ made
Reports (credential_error e) made = Unit
Reports (timed_out clock) made = Unit

Reports-same : (x : Sent) (m n : ℕ) → m ≡ n → Reports x m → Reports x n
Reports-same x m n e = rw e (λ r. r)

module _ (p : RetryPolicy) (w : World) (room : p.max_retries + 2 < 2 ^ 32) where
  -- Attempts are failures within the budget, and the one that a refresh is for.
  abbrev Within : Loop → Type 0
  Within l = (l.attempt ≡ l.failures + one_if l.credential_refreshed) × (l.failures ≤ p.max_retries)

  -- The refreshes that may still come.
  abbrev left : Loop → ℕ
  left l = one_if (not l.credential_refreshed && w.is_refreshable)

  -- What is true of the passes from a loop on.
  abbrev Ends : Loop → Option Sent × List Effect → Type 0
  Ends l (r, es) =
      (x : Sent) × (r ≡ some x)
      × (l.attempt + requests es ≤ p.max_retries + 2)
      × Reports x (l.attempt + requests es)
      × (refreshes es ≤ left l)
      × Short es

  module _ (l : Loop) (h : Within l) (rest : Loop → Option Sent × List Effect) where
    abbrev made_now : ℕ
    made_now = (l.attempt + 1) % 2 ^ 32

    abbrev counted : Loop
    counted = record l { attempt = made_now }

    made_now_lem : made_now ≡ l.attempt + 1
    made_now_lem = omega (arith, room, h.0, h.1, one_if_bounded l.credential_refreshed)

    failures_lem : (l.failures + 1) % 2 ^ 32 ≡ l.failures + 1
    failures_lem = omega (arith, room, h.1)

    decide-Ends :
        (c : Option Text) (x : Sent) (d : Decision)
        → Reports x made_now
        → Allowed p ((l.failures + 1) % 2 ^ 32) d
        → ((l' : Loop) → Within l' → l'.attempt ≡ l.attempt + 1 → Ends l' (rest l'))
        → Ends l (taken p w made_now (decide p w c x counted d) rest)
    decide-Ends c x give_up told allowed ih =
        let made : made_now ≡ l.attempt + 1 = made_now_lem in
        (
          x,
          refl,
          omega (arith, h.0, h.1, one_if_bounded l.credential_refreshed),
          Reports-same x _ _ (omega (arith, made)) told,
          omega arith,
          tt,
        )
    decide-Ends c x (retry d) told (short, budget) ih =
        let made : made_now ≡ l.attempt + 1 = made_now_lem in
        let failed : (l.failures + 1) % 2 ^ 32 ≡ l.failures + 1 = failures_lem in
        let l' = record counted { failures = (l.failures + 1) % 2 ^ 32 } in
        let (x', r, most, reports, few, shorts) =
          ih l' (omega (arith, made, failed, h.0), budget) made in
        (
          x',
          r,
          omega (arith, most, made),
          Reports-same x' _ _ (omega (arith, made)) reports,
          few,
          (short, shorts),
        )

    refresh-Ends :
        (c : Option Text) (b : Text)
        → l.credential_refreshed ≡ false
        → w.is_refreshable ≡ true
        → ((l' : Loop) → Within l' → l'.attempt ≡ l.attempt + 1 → Ends l' (rest l'))
        → Ends l (
            taken p w made_now
              (again c (invalidated b) (record counted { credential_refreshed = true }))
              rest)
    refresh-Ends c b first able ih =
        let made : made_now ≡ l.attempt + 1 = made_now_lem in
        let l' = record counted { credential_refreshed = true } in
        let at : l.attempt ≡ l.failures + one_if false =
          h.0 ∙ ap (λ b. l.failures + one_if b) first in
        let (x', r, most, reports, few, shorts) = ih l' (omega (arith, made, at), h.1) made in
        let more : left l ≡ 1 = ground (arith, first, able) in
        (
          x',
          r,
          omega (arith, most, made),
          Reports-same x' _ _ (omega (arith, made)) reports,
          omega (arith, few, more),
          shorts,
        )

    answered-Ends :
        (c : Option Text) (status : ℕ)
        → ((l' : Loop) → Within l' → l'.attempt ≡ l.attempt + 1 → Ends l' (rest l'))
        → Ends l (taken p w made_now (outcome p w c (answered status) counted) rest)
    answered-Ends c status ih =
        let decided = on_status-Allowed p ((l.failures + 1) % 2 ^ 32) status in
        elim (Option-cases (rejected p w c status counted)) [
          | inl e ↦
              rw (outcome, e)
                (decide-Ends c (response status made_now l.credential_refreshed) _ refl decided ih)
          | inr (b, e) ↦
              rw (outcome, e) (refresh-Ends c b (ground (arith, e)) (ground (arith, e)) ih)
        ]

    outcome-Ends :
        (c : Option Text) (a : Answer)
        → ((l' : Loop) → Within l' → l'.attempt ≡ l.attempt + 1 → Ends l' (rest l'))
        → Ends l (taken p w made_now (outcome p w c a counted) rest)
    outcome-Ends c elapsed ih = (
      timed_out _,
      refl,
      omega (arith, h.0, h.1, one_if_bounded l.credential_refreshed),
      tt,
      omega arith,
      tt,
    )
    outcome-Ends c (answered status) ih = answered-Ends c status ih
    outcome-Ends c (broke e) ih =
        decide-Ends c (transport made_now e) _ refl
          (on_transport_error-Allowed p ((l.failures + 1) % 2 ^ 32) e) ih

    turn-Ends :
        ((l' : Loop) → Within l' → l'.attempt ≡ l.attempt + 1 → Ends l' (rest l'))
        → Ends l (taken p w made_now (turn p w l) rest)
    unfolding turn
    turn-Ends ih = elim (Result-cases (w.credential made_now)) [
      | inr (e, q) ↦
          rw (turn, q)
            (
              credential_error e,
              refl,
              omega (arith, h.0, h.1, one_if_bounded l.credential_refreshed),
              tt,
              omega arith,
              tt,
            )
      | inl (c, q) ↦ rw (turn, q) (outcome-Ends c (w.answer made_now) ih)
    ]

  send_from-Ends :
      (fuel : ℕ) (l : Loop)
      → Within l
      → p.max_retries + 2 ≤ fuel + l.attempt
      → Ends l (send_from p w fuel l)
  unfolding send_from
  send_from-Ends zero l h enough =
      let no : ⊥ = omega (arith, h.0, h.1, one_if_bounded l.credential_refreshed, enough) in
      elim no [ ]
  send_from-Ends (suc fuel) l h enough =
      turn-Ends l h (send_from p w fuel)
        (λ l' h' e. send_from-Ends fuel l' h' (omega (arith, enough, e)))

  -- `send` returns, for every behaviour of the backend and the credential source. It sends at most
  -- `max_retries` + 2 requests and reports as many attempts as it sent, gives up a credential at
  -- most once and only a refreshable one, and waits at most MAX_BACKOFF at a time. The budget
  -- leaves room for the count of attempts in a `u32`.
  pub send_lem :
      (x : Sent) × ((send p w).0 ≡ some x)
      × (requests (send p w).1 ≤ p.max_retries + 2)
      × Reports x (requests (send p w).1)
      × (refreshes (send p w).1 ≤ one_if w.is_refreshable)
      × Short (send p w).1
  unfolding send
  send_lem =
      let (x, r, most, reports, few, shorts) =
        send_from-Ends (p.max_retries + 2) started (refl, omega arith) (omega arith) in
      (x, r, omega (arith, most), Reports-same x _ _ (omega arith) reports, few, shorts)
