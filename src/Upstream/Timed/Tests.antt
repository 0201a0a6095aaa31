-- ===== src/Upstream/Timed/Tests.antt =====
-- Runs of a timed body.
use anthroxy.Prelude.{◌≡◌, true, [], ◌∷◌, ascii, err}
use anthroxy.Upstream.Send.{stream_idle}
use anthroxy.Upstream.Bodies.{timed_out}
use anthroxy.Upstream.Timed.{BodyClock, chunk, not_ready, item, after, poll_next, poll_next-after}

abbrev clock : BodyClock
clock = record { stream = true; deadline = 100; idle = 10 }

-- A chunk at 3, silence found at 5: the body times out at 15.
poll_next-after_example :
    (poll_next 15 not_ready (after clock ((5, not_ready) ∷ (3, chunk (ascii "a")) ∷ []))).0
    ≡ item (err (timed_out stream_idle))
poll_next-after_example = poll_next-after clock ((5, not_ready) ∷ (3, chunk (ascii "a")) ∷ []) 15
