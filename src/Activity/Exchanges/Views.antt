-- ===== src/Activity/Exchanges/Views.antt =====
-- What src/activity/exchange.rs leaves of an exchange when its body has ended, written out field by
-- field.
use anthroxy.Prelude.{
  ℕ, ◌+◌, ◌-◌, ◌%◌, ◌^◌, ◌≤◌, ◌<◌, ◌==◌, ◌≡◌, refl, sym, ap, ◌∙◌, Bool, true, false, not, Option,
  none, some, List, [], ◌∷◌, ◌++◌, if◌then◌else◌, filter, length, drop, Text, ascii, arith,
}
use anthroxy.Anthropic.Usage.{Scan}
use anthroxy.Activity.Exchanges.{
  Outcome, complete, failed, client_disconnected, View, Activity, without, push_recent, recent_max,
  Ending, ended, dropped, broken, chunk_seen, or_insert,
}
use anthroxy.Activity.Exchanges.Recent.{last_ones, push_recent-last_ones}

-- The chunks of a body with the time that each is passed on.
abbrev pub seen : List (ℕ × Text) → View → View
seen [] v = v
seen ((elapsed, chunk) ∷ chunks) v = seen chunks (chunk_seen elapsed (length chunk) v)

-- What the chunks come to: when the first was passed on, and how many bytes they have.
abbrev pub first_time : List (ℕ × Text) → Option ℕ
first_time [] = none
first_time ((elapsed, chunk) ∷ chunks) = some elapsed

abbrev pub total : List (ℕ × Text) → ℕ
total [] = 0
total ((elapsed, chunk) ∷ chunks) = length chunk + total chunks

abbrev pub or_else {ℓ} : {A : Type ℓ} → Option A → Option A → Option A
or_else a b = elim a [ none ↦ b | some x ↦ some x ]

-- A stop cut the body.
abbrev pub is_cut : Ending → Bool → Bool
is_cut dropped stop = stop
is_cut ended stop = false
is_cut (broken why) stop = false

-- How an exchange counts, after the error that was told of in the body.
abbrev pub outcome_of : Ending → Option Text → Bool → Outcome
outcome_of dropped said true = failed
outcome_of dropped said false = client_disconnected
outcome_of ended (some why) stop = failed
outcome_of ended none stop = complete
outcome_of (broken why) said stop = failed

-- The error that an ended exchange shows, `before` being the one it had.
abbrev pub error_shown : Ending → Bool → Option Text → Option Text → Option Text
error_shown (broken why) stop said before = some why
error_shown dropped true said before = some (ascii "a stop cut the request before it finished")
error_shown dropped false said before = or_else said before
error_shown ended stop said before = or_else said before

-- The view of a body that passed these chunks on and ended so, with what a scan of it found.
abbrev pub view_ended : (ℕ → Text → Text) → Ending → Bool → ℕ → Scan → List (ℕ × Text) → View → View
view_ended cut e stop elapsed found chunks v = record {
  status = if is_cut e stop then or_else v.status (some 503) else v.status;
  ttfb_ms = or_else v.ttfb_ms (first_time chunks);
  duration_ms = some elapsed;
  bytes = (v.bytes + total chunks) % 2 ^ 64;
  usage = or_else found.usage v.usage;
  stop_reason = elim found.stop_reason [ none ↦ none | some reason ↦ some (cut 40 reason) ];
  outcome = some (outcome_of e found.error stop);
  error = error_shown e stop found.error v.error;
}

-- The lists after an exchange that ended: its view is no longer in flight and is the newest of the recent ones, of
-- which the last are kept.
abbrev pub moved : ℕ → View → Activity → Activity
moved p v a = record {
  in_flight = filter (λ view. not (view.0 == p)) a.in_flight;
  recent = last_ones (a.recent ++ v ∷ []);
}

without-filter :
    (p : ℕ) (views : List (ℕ × View)) → without p views ≡ filter (λ view. not (view.0 == p)) views
unfolding without
without-filter p [] = refl
without-filter p ((q, v) ∷ views) = ground (arith, without-filter p views)

push_recent-kept :
    (v : View) (recent : List View)
    → length recent ≤ recent_max
    → push_recent v recent ≡ last_ones (recent ++ v ∷ [])
push_recent-kept v recent h =
    let whole : 0 ≡ length recent - recent_max = omega (arith, h) in
    ap (λ n. push_recent v (drop n recent)) whole ∙ push_recent-last_ones v recent

abbrev pub left_with : ℕ → View → Activity → Activity
left_with p v a = record { in_flight = without p a.in_flight; recent = push_recent v a.recent }

pub left_with-moved :
    (p : ℕ) (v : View) (a : Activity) → length a.recent ≤ recent_max → left_with p v a ≡ moved p v a
left_with-moved p v a h =
    ap (λ views. record { in_flight = views; recent = push_recent v a.recent })
      (without-filter p a.in_flight)
    ∙ ap
        (λ recent. record {
          in_flight = filter (λ view. not (view.0 == p)) a.in_flight;
          recent = recent;
        })
        (push_recent-kept v a.recent h)

or_else-none : {A : Type 0} (o : Option A) → or_else o none ≡ o
or_else-none none = refl
or_else-none (some a) = refl

or_else-first : (at : ℕ) (o later : Option ℕ) → or_else (or_insert at o) later ≡ or_else o (some at)
or_else-first at none later = refl
or_else-first at (some a) later = refl

abbrev counted : ℕ → Option ℕ → View → View
counted n time v = record v { ttfb_ms = time; bytes = n }

-- The chunks of a body change the time of the first byte and the count of bytes only.
pub seen_lem :
    (chunks : List (ℕ × Text)) (v : View)
    → v.bytes < 2 ^ 64
    → seen chunks v ≡ record v {
      ttfb_ms = or_else v.ttfb_ms (first_time chunks);
      bytes = (v.bytes + total chunks) % 2 ^ 64;
    }
unfolding chunk_seen
seen_lem [] v small =
    let same : v.bytes ≡ (v.bytes + 0) % 2 ^ 64 = omega (arith, small) in
    ap (λ n. counted n v.ttfb_ms v) same
    ∙ ap (λ t. counted ((v.bytes + 0) % 2 ^ 64) t v) (sym (or_else-none v.ttfb_ms))
seen_lem ((at, chunk) ∷ chunks) v small =
    let bytes = (v.bytes + length chunk) % 2 ^ 64 in
    let same : (bytes + total chunks) % 2 ^ 64
        ≡ (v.bytes + (length chunk + total chunks)) % 2 ^ 64 =
      omega arith in
    seen_lem chunks (chunk_seen at (length chunk) v) (omega arith)
    ∙ ap (λ n. counted n (or_else (or_insert at v.ttfb_ms) (first_time chunks)) v) same
    ∙ ap (λ t. counted ((v.bytes + (length chunk + total chunks)) % 2 ^ 64) t v)
        (or_else-first at v.ttfb_ms (first_time chunks))
