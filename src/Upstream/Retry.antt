-- ===== src/Upstream/Retry.antt =====
-- src/upstream/retry.rs: when to try an upstream request again. A `Duration` is a number of
-- nanoseconds. What `reqwest::Error` answers is the record TransportError.
use anthroxy.Prelude.{
  ℕ, ◌+◌, ◌-◌, ◌*◌, ◌^◌, ◌≤◌, ◌==◌, ◌≡◌, refl, Bool, false, ◌&&◌, ◌||◌, not, Option, none, some,
  List, [], mul-le-mul_left, mul-le-mul_right, if◌then◌else◌, ltb, min, any, arith, Bool-cases, inl,
  inr, ◌⊎◌,
}

-- `MAX_BACKOFF`: 30 seconds.
abbrev pub max_backoff : ℕ
max_backoff = 30 * 10 ^ 9

pub record RetryPolicy : Type 0 where
  pub max_retries : ℕ
  pub backoff : ℕ
  pub retry_on_status : List ℕ

pub data Decision : Type 0 where
  retry : ℕ → Decision
  give_up : Decision

-- What a transport error answers; `hyper` is, for the first `hyper::Error` in the chain of its
-- sources, whether the message was incomplete.
pub record TransportError : Type 0 where
  pub is_timeout : Bool
  pub is_body : Bool
  pub is_decode : Bool
  pub is_connect : Bool
  pub is_request : Bool
  pub hyper : Option Bool

-- `RetryPolicy::never`
abbrev pub never : RetryPolicy
never = record { max_retries = 0; backoff = 0; retry_on_status = [] }

-- `2u32.saturating_pow(n)`
unfoldable pub power_u32 : ℕ → ℕ
power_u32 n = min (2 ^ n) (2 ^ 32 - 1)

-- `Duration::MAX`
abbrev pub duration_max : ℕ
duration_max = (2 ^ 64 - 1) * 10 ^ 9 + 999999999

-- `Duration::saturating_mul`
unfoldable pub saturating_mul : ℕ → ℕ → ℕ
saturating_mul d n = min (d * n) duration_max

-- `RetryPolicy::next`
unfoldable pub next : RetryPolicy → ℕ → Decision
unfolding power_u32 saturating_mul
next p failure =
    if ltb p.max_retries failure
    then give_up
    else retry (min (saturating_mul p.backoff (power_u32 (failure - 1))) max_backoff)

unfoldable pub on_status : RetryPolicy → ℕ → ℕ → Decision
unfolding next
on_status p failure status =
    if any (λ s. s == status) p.retry_on_status then next p failure else give_up

unfoldable pub closed_after_reading : TransportError → Bool
closed_after_reading e = elim e.hyper [ none ↦ false | some incomplete ↦ incomplete ]

unfoldable pub is_connection_failure : TransportError → Bool
unfolding closed_after_reading
is_connection_failure e =
    not e.is_timeout
    && (not e.is_body
        && (not e.is_decode && ((e.is_connect || e.is_request) && not (closed_after_reading e))))

unfoldable pub on_transport_error : RetryPolicy → ℕ → TransportError → Decision
unfolding next is_connection_failure
on_transport_error p failure e = if is_connection_failure e then next p failure else give_up

-- The delays with plain arithmetic.
abbrev pub plain_next : RetryPolicy → ℕ → Decision
plain_next p failure =
    if ltb p.max_retries failure
    then give_up
    else retry (min (p.backoff * 2 ^ (failure - 1)) max_backoff)

-- The caps of `u32` and `Duration` lie past the longest wait, unless a tick is under seven
-- nanoseconds.
capped :
    (backoff power : ℕ)
    → (backoff ≡ 0) ⊎ (7 ≤ backoff)
    → min (min (backoff * min power (2 ^ 32 - 1)) duration_max) max_backoff
      ≡ min (backoff * power) max_backoff
capped backoff power (inl e) = rw e (omega arith)
capped backoff power (inr least) = elim (Bool-cases (ltb power (2 ^ 32))) [
  | inl below ↦
      let same : min power (2 ^ 32 - 1) ≡ power = ground (arith, below) in rw same (omega arith)
  | inr above ↦
      let cap : min power (2 ^ 32 - 1) ≡ 2 ^ 32 - 1 = ground (arith, above) in
      let long : 7 * (2 ^ 32 - 1) ≤ backoff * (2 ^ 32 - 1) = mul-le-mul_right (2 ^ 32 - 1) least in
      let le : 2 ^ 32 - 1 ≤ power = ground (arith, above) in
      let longer : backoff * (2 ^ 32 - 1) ≤ backoff * power = mul-le-mul_left backoff le in
      rw cap (omega (arith, long, longer))
]

-- No cap of the machine's integers shows in a delay: it is the backoff doubled once per failure
-- after the first, up to MAX_BACKOFF, and there is none past the last retry. The backoff is no
-- time or at least seven nanoseconds.
pub next_lem :
    (p : RetryPolicy) (failure : ℕ)
    → (p.backoff ≡ 0) ⊎ (7 ≤ p.backoff)
    → next p failure ≡ plain_next p failure
unfolding next power_u32 saturating_mul
next_lem p failure h = rw (capped p.backoff (2 ^ (failure - 1)) h) refl

-- What may be decided: a wait is bounded, and comes within the budget.
abbrev pub Allowed : RetryPolicy → ℕ → Decision → Type 0
Allowed p failure give_up = Unit
Allowed p failure (retry d) = (d ≤ max_backoff) × (failure ≤ p.max_retries)

next-Allowed : (p : RetryPolicy) (failure : ℕ) → Allowed p failure (next p failure)
unfolding next
next-Allowed p failure = elim (Bool-cases (ltb p.max_retries failure)) [
  | inl over ↦ rw (next, over) tt
  | inr under ↦ rw (next, under) (omega arith, ground (arith, under))
]

pub on_status-Allowed :
    (p : RetryPolicy) (failure status : ℕ) → Allowed p failure (on_status p failure status)
unfolding on_status
on_status-Allowed p failure status = elim (Bool-cases (any (λ s. s == status) p.retry_on_status)) [
  | inl e ↦ rw (on_status, e) (next-Allowed p failure)
  | inr e ↦ rw (on_status, e) tt
]

pub on_transport_error-Allowed :
    (p : RetryPolicy) (failure : ℕ) (e : TransportError)
    → Allowed p failure (on_transport_error p failure e)
unfolding on_transport_error
on_transport_error-Allowed p failure e = elim (Bool-cases (is_connection_failure e)) [
  | inl q ↦ rw (on_transport_error, q) (next-Allowed p failure)
  | inr q ↦ rw (on_transport_error, q) tt
]
