-- ===== src/Upstream/Send/Tests.antt =====
-- Runs of the loop.
use anthroxy.Prelude.{
  ℕ, zero, suc, ◌≤◌, ◌≡◌, refl, true, false, none, some, [], ◌∷◌, ascii, ok, arith, inr,
}
use anthroxy.Upstream.Retry.{RetryPolicy, TransportError, retry, next, next_lem}
use anthroxy.Upstream.Send.{
  Answer, answered, broke, World, Sent, response, sent, invalidated, slept, send,
}
use anthroxy.Upstream.Send.Ends.{requests, refreshes, Short, Reports, send_lem}

abbrev twice : RetryPolicy
twice = record { max_retries = 2; backoff = 500; retry_on_status = 503 ∷ [] }

abbrev refused : TransportError
refused = record {
  is_timeout = false;
  is_body = false;
  is_decode = false;
  is_connect = true;
  is_request = false;
  hyper = none;
}

-- Refused, unavailable, unauthorized, then answered.
abbrev at : ℕ → Answer
at (suc zero) = broke refused
at (suc (suc zero)) = answered 503
at (suc (suc (suc zero))) = answered 401
at _ = answered 200

abbrev world : World
world = record {
  credential = λ n. ok (some (ascii "k"));
  answer = at;
  is_refreshable = true;
  stream = false;
}

send_run : send twice world ≡ (
  some (response 200 4 true),
  sent 1 (some (ascii "k"))
      ∷ slept 500
      ∷ sent 2 (some (ascii "k"))
      ∷ slept 1000
      ∷ sent 3 (some (ascii "k"))
      ∷ invalidated (ascii "k")
      ∷ sent 4 (some (ascii "k"))
      ∷ [],
)
unfolding send
send_run = refl

next_lem_example : next twice 2 ≡ retry 1000
next_lem_example = next_lem twice 2 (inr (omega arith))

send_lem_example :
    (x : Sent) × ((send twice world).0 ≡ some x)
    × (requests (send twice world).1 ≤ 4)
    × Reports x (requests (send twice world).1)
    × (refreshes (send twice world).1 ≤ 1)
    × Short (send twice world).1
send_lem_example = send_lem twice world (omega arith)
