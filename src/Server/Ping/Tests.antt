-- ===== src/Server/Ping/Tests.antt =====
-- Runs of the pings.
use anthroxy.Prelude.{◌≡◌, refl, [], ◌∷◌, ◌++◌, ascii, text_eq}
use anthroxy.Server.Ping.{bytes, pending, chunk, quiet, ping, after, poll_next, poll_next-quiet}

poll_next-quiet_example :
    (poll_next (quiet 1) (after (chunk (10 ∷ []) ∷ chunk (ascii "data: x" ++ (10 ∷ [])) ∷ []))).0
    ≡ bytes ping
unfolding text_eq anthroxy.Server.Ping.ends_with
poll_next-quiet_example =
    poll_next-quiet (chunk (10 ∷ []) ∷ chunk (ascii "data: x" ++ (10 ∷ [])) ∷ []) 1

-- Inside an event there is none.
inside : (poll_next (quiet 2) (after (chunk (ascii "data: x" ++ (10 ∷ [])) ∷ []))).0 ≡ pending
unfolding poll_next text_eq
inside = refl
