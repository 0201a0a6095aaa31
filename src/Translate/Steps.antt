-- ===== src/Translate/Steps.antt =====
-- One step of src/translate/stream.rs keeps a client in step.
use anthroxy.Prelude.{
  ℕ, ◌≡◌, ◌∙◌, refl, Bool, true, false, Option, some, List, [], ◌∷◌, ◌++◌, Text, ascii, inl, inr,
  Result, ok, err, Result-cases,
}
use anthroxy.Sse
use anthroxy.Sse.{Frame, SseError}
use anthroxy.Ir.{Failure}
use anthroxy.Ir.Failures.{upstream_failure}
use anthroxy.Json.{Json}
use anthroxy.OpenAi.Chunk.{decode}
use anthroxy.OpenAi.Chunk.Calls.{finish_calls}
use anthroxy.Anthropic.Stream
use anthroxy.Anthropic.Stream.{
  StreamEncoder, Written, State, idle, opened, closed, Open, encode_all, finish_stream,
}
use anthroxy.Anthropic.Stream.Grammar.{Phase, ended, accept, accept_all}
use anthroxy.Anthropic.Stream.Conforms.{At, Conforms, accept_all-append}
use anthroxy.Anthropic.Stream.Whole.{encode_all-Leads, finish_stream-Leads}
use anthroxy.Translate.{
  Translator, new, Item, chunk, broken, Out, fail, each_frame, frames, end_stream, take_item,
  yielded, Polled, rounds, poll, document_stream,
}
use anthroxy.Translate

-- An error leaves a client at the end.
fail-Leads :
    (f : Failure) (e : StreamEncoder) (p : Phase)
    → Conforms e p
    → (accept_all (Stream.fail f e).1 p ≡ some ended) × Conforms (Stream.fail f e).0 ended
unfolding Stream.fail accept
fail-Leads f e p = by_state e.state e.open_now e.next_index e.tools p
  where
    by_state :
        (s : State) (o : Option Open) (n : ℕ) (calls : List (ℕ × ℕ)) (p : Phase)
        → At s o n calls p
        → (accept_all
              (Stream.fail f
                (record e { state = s; open_now = o; next_index = n; tools = calls })).1
              p
            ≡ some ended)
          × Conforms
              (Stream.fail f
                (record e { state = s; open_now = o; next_index = n; tools = calls })).0
              ended
    by_state idle o n calls p (no_block, first, no_call, p_before) = rw p_before (refl, refl)
    by_state opened o n calls p (tools, phase, tracked) = rw phase (refl, refl)
    by_state closed o n calls p over = rw over (refl, refl)

-- What a step of the translator wrote may come next, and leaves client and encoder in step.
abbrev pub Carries : Bool → Out → Phase → Type 0
Carries over (t, out) p =
    (q : Phase) × (accept_all out p ≡ some q) × Conforms t.encoder q × (t.done ≡ over)

translator_fail-ends :
    (detail : Text) (t : Translator) (p : Phase)
    → Conforms t.encoder p
    → (accept_all (fail detail t).1 p ≡ some ended) × ((fail detail t).0.done ≡ t.done)
unfolding fail
translator_fail-ends detail t p h =
    let (ran, k) =
      fail-Leads (upstream_failure (ascii "[backend " ++ (t.backend ++ (ascii "] " ++ detail))))
        t.encoder p h in
    (ran, refl)

translator_fail-Carries :
    (detail : Text) (t : Translator) (p : Phase)
    → Conforms t.encoder p
    → Carries t.done (fail detail t) p
unfolding fail
translator_fail-Carries detail t p h =
    let (ran, k) =
      fail-Leads (upstream_failure (ascii "[backend " ++ (t.backend ++ (ascii "] " ++ detail))))
        t.encoder p h in
    (ended, ran, k, refl)

-- In step with a client that reads on, or at the end of what it reads.
abbrev pub Follows : Bool → Translator → Phase → Type 0
Follows true t p = p ≡ ended
Follows false t p = Conforms t.encoder p

abbrev pub is_last : Item → Bool
is_last (chunk bytes) = false
is_last (broken why) = true
is_last Translate.ended = true

module _ (j : Json) (message : Text) (uuid : ℕ → Text) where
  each_frame-Carries :
      (fs : List Frame) (t : Translator) (p : Phase)
      → Conforms t.encoder p
      → Carries t.done (each_frame j message uuid fs t) p
  unfolding each_frame
  each_frame-Carries [] t p h = (p, refl, h, refl)
  each_frame-Carries (frame ∷ fs) t p h =
      let d = (decode j uuid frame.payload t.decoder).1 in
      elim (Result-cases (decode j uuid frame.payload t.decoder).0) [
        | inr (e, bad) ↦
            rw (bad, each_frame) (translator_fail-Carries _ (record t { decoder = d }) p h)
        | inl (events, good) ↦
            let (q, ran, k) = encode_all-Leads message events t.encoder p h in
            let next = record t {
              decoder = d;
              encoder = (encode_all message events t.encoder).0;
            } in
            let (q', ran', k', same) = each_frame-Carries fs next q k in
            rw (good, each_frame)
              (
                q',
                accept_all-append (encode_all message events t.encoder).1
                      (each_frame j message uuid fs next).1 p q ran
                    ∙ ran',
                k',
                same,
              )
      ]

  frames-Carries :
      (parsed : Result SseError (List Frame)) (t : Translator) (p : Phase)
      → Conforms t.encoder p
      → Carries t.done (frames j message uuid parsed t) p
  unfolding frames
  frames-Carries (err e) t p h = translator_fail-Carries _ t p h
  frames-Carries (ok fs) t p h = each_frame-Carries fs t p h

  -- The end of input leaves a client at the end.
  end-Carries :
      (t : Translator) (p : Phase)
      → Conforms t.encoder p
      → (accept_all (end_stream j message uuid t).1 p ≡ some ended)
        × ((end_stream j message uuid t).0.done ≡ t.done)
  unfolding end_stream
  end-Carries t p h =
      let (q, ran, k, same) =
        frames-Carries (Sse.finish t.parser).0 (record t { parser = (Sse.finish t.parser).1 }) p
          h in
      let framed =
        frames j message uuid (Sse.finish t.parser).0
          (record t { parser = (Sse.finish t.parser).1 }) in
      let held = (finish_calls framed.0.decoder).1 in
      let e = encode_all message held framed.0.encoder in
      let (q', ran', k') = encode_all-Leads message held framed.0.encoder q k in
      (
        accept_all-append framed.1 (e.1 ++ (finish_stream e.0).1) p q ran
            ∙ (accept_all-append e.1 (finish_stream e.0).1 q q' ran'
                ∙ finish_stream-Leads e.0 q' k'),
        same,
      )

  pub item-Carries :
      (item : Item) (t : Translator) (p : Phase)
      → t.done ≡ false
      → Conforms t.encoder p
      → (q : Phase) × (accept_all (take_item j message uuid item t).1 p ≡ some q)
        × Follows (is_last item) (take_item j message uuid item t).0 q
        × ((take_item j message uuid item t).0.done ≡ is_last item)
  unfolding take_item
  item-Carries (chunk bytes) t p going h =
      let (q, ran, k, same) =
        frames-Carries (Sse.feed t.parser bytes).0
          (record t { parser = (Sse.feed t.parser bytes).1 }) p h in
      (q, ran, k, same ∙ going)
  item-Carries (broken why) t p going h =
      let (ran, same) = translator_fail-ends _ (record t { done = true }) p h in
      (ended, ran, refl, same)
  item-Carries Translate.ended t p going h =
      let (ran, same) = end-Carries (record t { done = true }) p h in (ended, ran, refl, same)
