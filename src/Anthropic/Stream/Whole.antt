-- ===== src/Anthropic/Stream/Whole.antt =====
-- A whole stream of src/anthropic/stream.rs, from its first event to its end.
use anthroxy.Prelude.{ℕ, ◌≡◌, refl, ap, ◌∙◌, Option, none, some, List, [], ◌∷◌, ◌++◌, Text}
use anthroxy.Ir.{
  StopReason, Usage, Event, start, thinking_delta, text_delta, tool_call_start, tool_call_delta,
  finish, usage, error, done,
}
use anthroxy.Anthropic.Stream.{
  Written, State, idle, opened, closed, Open, StreamEncoder, lookup, new, finish_stream,
  encode_open, encode, encode_all,
}
use anthroxy.Anthropic.Stream.Grammar.{
  thinking, text, tool, Phase, before, inside, ended, accept, accept_all,
}
use anthroxy.Anthropic.Stream.Conforms.{
  At, Conforms, Leads, Tracked, Tracked-insert, accept_all-append, opened-Leads, finish-Leads,
}

-- The encoder before any.
abbrev idle_at : Text → StopReason → Usage → StreamEncoder
idle_at fallback stop u = record (new fallback) { stop = stop; usage_now = u }

Tracked-nil : Tracked [] []
unfolding lookup
Tracked-nil k b e = cc

-- The first event that writes opens the message, and goes on as in an open one.
idle-Leads :
    (fallback : Text) (stop : StopReason) (u : Usage) (uuid : Text) (event : Event)
    → Leads (encode_open uuid event (idle_at fallback stop u)) before
unfolding encode_open accept
idle-Leads fallback stop u uuid (start id model) = (inside none 0 [], refl, ([], refl, Tracked-nil))
idle-Leads fallback stop u uuid (thinking_delta []) = (before, refl, (refl, refl, refl, refl))
idle-Leads fallback stop u uuid (thinking_delta (c ∷ t)) =
    (inside (some (0, thinking)) 1 [], refl, ([], refl, Tracked-nil))
idle-Leads fallback stop u uuid (text_delta []) = (before, refl, (refl, refl, refl, refl))
idle-Leads fallback stop u uuid (text_delta (c ∷ t)) =
    (inside (some (0, text)) 1 [], refl, ([], refl, Tracked-nil))
idle-Leads fallback stop u uuid (tool_call_start index id name) = (
  inside (some (0, tool)) 1 (0 ∷ []),
  refl,
  (0 ∷ [], refl, Tracked-insert index 0 [] [] Tracked-nil),
)
idle-Leads fallback stop u uuid (tool_call_delta index arguments) =
    (before, refl, (refl, refl, refl, refl))
idle-Leads fallback stop u uuid (finish reason) = (before, refl, (refl, refl, refl, refl))
idle-Leads fallback stop u uuid (usage v) = (before, refl, (refl, refl, refl, refl))
idle-Leads fallback stop u uuid (error f) = (ended, refl, refl)
idle-Leads fallback stop u uuid done = (ended, refl, refl)

-- Whatever the event, what `encode` writes is what a client in step with the encoder may read next,
-- and leaves the two in step.
encode-Leads :
    (uuid : Text) (event : Event) (e : StreamEncoder) (p : Phase)
    → Conforms e p
    → Leads (encode uuid event e) p
unfolding encode
encode-Leads uuid event e p = by_state e.state e.open_now e.next_index e.tools p
  where
    by_state :
        (s : State) (o : Option Open) (n : ℕ) (calls : List (ℕ × ℕ)) (p : Phase)
        → At s o n calls p
        → Leads
            (encode uuid event
              (record e { state = s; open_now = o; next_index = n; tools = calls }))
            p
    by_state idle o n calls p (no_block, first, no_call, p_before) =
        rw (no_block, first, no_call, p_before)
          (idle-Leads e.fallback_model e.stop e.usage_now uuid event)
    by_state opened o n calls p (tools, phase, tracked) =
        rw phase
          (opened-Leads e.fallback_model n calls e.stop e.usage_now tools tracked uuid event o)
    by_state closed o n calls p over = (p, refl, over)

-- The end of input leaves a client at the end, whatever came before.
pub finish_stream-Leads :
    (e : StreamEncoder) (p : Phase) → Conforms e p → accept_all (finish_stream e).1 p ≡ some ended
unfolding finish_stream accept
finish_stream-Leads e p = by_state e.state e.open_now e.next_index e.tools p
  where
    by_state :
        (s : State) (o : Option Open) (n : ℕ) (calls : List (ℕ × ℕ)) (p : Phase)
        → At s o n calls p
        → accept_all
            (finish_stream (record e { state = s; open_now = o; next_index = n; tools = calls })).1
            p
          ≡ some ended
    by_state idle o n calls p (no_block, first, no_call, p_before) = rw p_before refl
    by_state opened o n calls p (tools, phase, tracked) =
        let (q, ran, over) =
          finish-Leads e.fallback_model n calls e.stop e.usage_now tools tracked o in
        rw phase (ran ∙ ap some over)
    by_state closed o n calls p over = rw over refl

-- Events in a row keep a client in step.
pub encode_all-Leads :
    (uuid : Text) (events : List Event) (e : StreamEncoder) (p : Phase)
    → Conforms e p
    → Leads (encode_all uuid events e) p
unfolding encode_all
encode_all-Leads uuid [] e p h = (p, refl, h)
encode_all-Leads uuid (event ∷ events) e p h =
    let (q, ran, k) = encode-Leads uuid event e p h in
    let (q', ran', k') = encode_all-Leads uuid events (encode uuid event e).0 q k in
    (
      q',
      accept_all-append (encode uuid event e).1 (encode_all uuid events (encode uuid event e).0).1 p
            q ran
          ∙ ran',
      k',
    )

-- The events that a stream writes, up to the end of input.
unfoldable pub whole : Text → Text → List Event → List Written
unfolding encode_all
whole uuid fallback events =
    let (e, out) = encode_all uuid events (new fallback) in out ++ (finish_stream e).1

-- Whatever events the decoder hands over, a client reads one complete message: `message_start`,
-- blocks numbered in order that open, take the deltas of their kind and close one at a time, then
-- `message_delta` and `message_stop`; or the same cut off by one `error` event. Nothing follows.
pub whole_accepted :
    (uuid fallback : Text) (events : List Event)
    → accept_all (whole uuid fallback events) before ≡ some ended
unfolding whole
whole_accepted uuid fallback events =
    let (q, ran, k) = encode_all-Leads uuid events (new fallback) before (refl, refl, refl, refl) in
    accept_all-append (encode_all uuid events (new fallback)).1 _ before q ran
    ∙ finish_stream-Leads (encode_all uuid events (new fallback)).0 q k
