-- ===== src/Translate/Streams.antt =====
-- Whole answers of src/translate/stream.rs, as a client of the Messages API reads them.
use anthroxy.Prelude.{
  ℕ, zero, suc, ◌≤◌, ◌≡◌, ◌∙◌, refl, ap, sym, Bool, true, false, ◌||◌, not, Option, none, some,
  List, [], ◌∷◌, ◌++◌, if◌then◌else◌, is_empty, any, ◌<◌, Text, arith, length, Bool-cases, inl, inr,
}
use anthroxy.Json.{Json}
use anthroxy.Anthropic.Stream.{Written}
use anthroxy.Anthropic.Stream.Grammar.{Phase, before, ended, accept_all}
use anthroxy.Anthropic.Stream.Conforms.{Conforms, accept_all-append}
use anthroxy.Translate.{Translator, new, Item, take_item, yielded, Polled, rounds, poll}
use anthroxy.Translate.Steps.{Follows, is_last, item-Carries}

-- What one poll that is ready gives, from a phase and over at most so many items.
record Progress (n : ℕ) (p : Phase) (r : Polled) : Type 0 where
  out : List Written
  q : Phase
  ready : r.0 ≡ some (yielded out)
  ran : accept_all out p ≡ some q
  follows : Follows r.1.done r.1 q
  -- A stream that goes on has yielded something.
  spoke : r.1.done || not (is_empty out) ≡ true
  rest : r.1.done || any is_last r.2 ≡ true
  fewer : length r.2 < n

Follows-over :
    (over : Bool) (t : Translator) (p : Phase) → over ≡ true → Follows over t p → p ≡ ended
Follows-over true t p e follows = follows
Follows-over false t p e follows = cc

Follows-going :
    (over : Bool) (t : Translator) (p : Phase)
    → over ≡ false
    → Follows over t p
    → Conforms t.encoder p
Follows-going true t p e follows = let no : ⊥ = cc in elim no [ ]
Follows-going false t p e follows = follows

Progress-more : (n : ℕ) (p : Phase) (r : Polled) → Progress n p r → Progress (suc n) p r
Progress-more n p r g = record {
  out = g.out;
  q = g.q;
  ready = g.ready;
  ran = g.ran;
  follows = g.follows;
  spoke = g.spoke;
  rest = g.rest;
  fewer = omega (arith, g.fewer);
}

-- The end of a round of the loop: it leaves, or goes on with the items after it.
settled :
    (out : List Written) (t : Translator) (items : List Item) (more : Polled) (p q : Phase)
    → accept_all out p ≡ some q
    → Follows t.done t q
    → t.done || any is_last items ≡ true
    → (t.done ≡ false → Conforms t.encoder q → Progress (length items) q more)
    → Progress
        (suc (length items))
        p
        (if t.done || not (is_empty out) then (some (yielded out), t, items) else more)
settled out t items more p q = by_done t.done out
  where
    by_done :
        (over : Bool) (out : List Written)
        → accept_all out p ≡ some q
        → Follows over t q
        → over || any is_last items ≡ true
        → (over ≡ false → Conforms t.encoder q → Progress (length items) q more)
        → Progress (suc (length items)) p (
            if over || not (is_empty out)
            then (some (yielded out), record t { done = over }, items)
            else more)
    by_done true out ran follows rest again = record {
      out = out;
      q = q;
      ready = refl;
      ran = ran;
      follows = follows;
      spoke = refl;
      rest = refl;
      fewer = omega arith;
    }
    by_done false [] ran follows rest again =
        let same : p ≡ q = cc in Progress-more (length items) p more (rw same (again refl follows))
    by_done false (w ∷ ws) ran follows rest again = record {
      out = w ∷ ws;
      q = q;
      ready = refl;
      ran = ran;
      follows = follows;
      spoke = refl;
      rest = rest;
      fewer = omega arith;
    }

module _ (j : Json) (message : Text) (uuid : ℕ → Text) where
  rounds-Progress :
      (items : List Item) (t : Translator) (p : Phase)
      → t.done ≡ false
      → Conforms t.encoder p
      → any is_last items ≡ true
      → Progress (length items) p (rounds j message uuid items t)
  unfolding rounds
  rounds-Progress [] t p going h last = cc
  rounds-Progress (item ∷ items) t p going h last =
      let (q, ran, follows, ends) = item-Carries j message uuid item t p going h in
      let t' = (take_item j message uuid item t).0 in
      let after : is_last item ≡ false → any is_last items ≡ true =
        λ no. ground (arith, no, last) in
      settled (take_item j message uuid item t).1 t' items (rounds j message uuid items t') p q ran
        (rw ends follows) (rw ends last)
        (λ on k. rounds-Progress items t' q on k (after (sym ends ∙ on)))

  -- A body polled until it ends, at most so often: what it yielded, and whether it ended.
  abbrev gathered : Option (Option (List Written)) → List Written × Bool → List Written × Bool
  gathered none more = ([], false)
  gathered (some none) more = ([], true)
  gathered (some (some out)) (more, over) = (out ++ more, over)

  unfoldable pub answer : ℕ → List Item → Translator → List Written × Bool
  unfolding poll
  answer zero items t = ([], false)
  answer (suc n) items t =
      let (r, t', rest) = poll j message uuid items t in gathered r (answer n rest t')

  answer-over :
      (n : ℕ) (items : List Item) (t : Translator)
      → t.done ≡ true
      → answer (suc n) items t ≡ ([], true)
  unfolding answer poll
  answer-over n items t over = rw (answer, poll, over) refl

  answer-going :
      (n : ℕ) (items : List Item) (t : Translator)
      → t.done ≡ false
      → answer (suc n) items t
        ≡ gathered
            (rounds j message uuid items t).0
            (answer n (rounds j message uuid items t).2 (rounds j message uuid items t).1)
  unfolding answer poll
  answer-going n items t going = simp (answer, poll, going) refl

  -- The client is at the end, and so is the body.
  abbrev Over : List Written × Bool → Phase → Type 0
  Over (out, over) p = (accept_all out p ≡ some ended) × (over ≡ true)

  gathered-Over :
      (n m : ℕ) (p : Phase) (r : Polled)
      → Progress m p r
      → m ≤ n
      → ((items : List Item) (t : Translator) (q : Phase)
          → t.done ≡ false
          → Conforms t.encoder q
          → any is_last items ≡ true
          → length items < n
          → Over (answer n items t) q)
      → 0 < n
      → Over (gathered r.0 (answer n r.2 r.1)) p
  gathered-Over (suc n) m p (r, t, rest) g le again positive = by_out g.out g.ready g.ran g.spoke
    where
      by_out :
          (out : List Written)
          → r ≡ some (yielded out)
          → accept_all out p ≡ some g.q
          → t.done || not (is_empty out) ≡ true
          → Over (gathered r (answer (suc n) rest t)) p
      by_out [] ready ran spoke =
          let e : t.done ≡ true = ground (arith, spoke) in
          rw ready (ran ∙ ap some (Follows-over t.done t g.q e g.follows), refl)
      by_out (w ∷ ws) ready ran spoke = elim (Bool-cases t.done) [
        | inl e ↦
            rw (ready, answer-over n rest t e)
              (
                accept_all-append (w ∷ ws) [] p g.q ran
                    ∙ ap some (Follows-over t.done t g.q e g.follows),
                refl,
              )
        | inr e ↦
            let few : length rest < suc n = omega (arith, g.fewer, le) in
            let some_last : any is_last rest ≡ true = ground (arith, e, g.rest) in
            let (reads, ends) =
              again rest t g.q e (Follows-going t.done t g.q e g.follows) some_last few in
            rw ready (accept_all-append (w ∷ ws) (answer (suc n) rest t).0 p g.q ran ∙ reads, ends)
      ]
  gathered-Over zero m p r g le again positive = let no : ⊥ = omega (arith, positive) in elim no [ ]

  answer-Over :
      (n : ℕ) (items : List Item) (t : Translator) (p : Phase)
      → t.done ≡ false
      → Conforms t.encoder p
      → any is_last items ≡ true
      → length items < n
      → Over (answer n items t) p
  unfolding answer
  answer-Over zero items t p going h last fuel = let no : ⊥ = omega (arith, fuel) in elim no [ ]
  answer-Over (suc n) [] t p going h last fuel = cc
  answer-Over (suc n) (item ∷ items) t p going h last fuel =
      rw (answer-going n (item ∷ items) t going) (
        gathered-Over n (suc (length items)) p _ (rounds-Progress (item ∷ items) t p going h last)
          (omega arith) (answer-Over n) (omega arith))

  -- However the transport cuts a backend's answer and wherever it breaks off, polling the translated
  -- body once more than there are items ends it, and a client reads one complete message of it, or
  -- one cut off by a single `error` event. The answer ends or breaks at some item.
  pub answer_accepted :
      (fallback backend : Text) (items : List Item)
      → any is_last items ≡ true
      → (accept_all (answer (suc (length items)) items (new fallback backend)).0 before
          ≡ some ended)
        × ((answer (suc (length items)) items (new fallback backend)).1 ≡ true)
  answer_accepted fallback backend items last =
      answer-Over (suc (length items)) items (new fallback backend) before refl
        (refl, refl, refl, refl) last (omega arith)
