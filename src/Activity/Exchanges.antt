-- ===== src/Activity/Exchanges.antt =====
-- src/activity/mod.rs and src/activity/exchange.rs: requests in flight and recent, and a body that is
-- tracked to its end. A number stands for the `Arc` of a view, which is in flight until its exchange
-- is finished; a view has the fields that the end of a body sets. Times and `text::cut`, as `cut`, are
-- arguments.
pub mod Tracking
pub mod Recent
pub mod Views
mod Tests
use anthroxy.Prelude.{
  ℕ, ◌+◌, ◌%◌, ◌^◌, ◌==◌, Bool, true, false, Option, none, some, List, [], ◌∷◌, ◌++◌, if◌then◌else◌,
  length, drop, Text, ascii,
}
use anthroxy.Json.{Json}
use anthroxy.Anthropic.Usage.{TokenUsage, Scan, nothing_found, UsageScanner, feed_body, finish_body}

pub data Outcome : Type 0 where
  complete failed client_disconnected : Outcome

pub record View : Type 0 where
  pub status : Option ℕ
  pub ttfb_ms : Option ℕ
  pub duration_ms : Option ℕ
  pub bytes : ℕ
  pub usage : Option TokenUsage
  pub stop_reason : Option Text
  pub outcome : Option Outcome
  pub error : Option Text

-- `RECENT`
abbrev pub recent_max : ℕ
recent_max = 200

pub record Activity : Type 0 where
  pub in_flight : List (ℕ × View)
  -- Newest last.
  pub recent : List View

unfoldable pub register : ℕ → View → Activity → Activity
register p v a = record a { in_flight = a.in_flight ++ (p, v) ∷ [] }

unfoldable pub view_of : ℕ → List (ℕ × View) → Option View
view_of p [] = none
view_of p ((q, v) ∷ views) = if q == p then some v else view_of p views

unfoldable pub changed : ℕ → (View → View) → List (ℕ × View) → List (ℕ × View)
changed p change [] = []
changed p change ((q, v) ∷ views) = (q, if q == p then change v else v) ∷ changed p change views

-- `retain`
unfoldable pub without : ℕ → List (ℕ × View) → List (ℕ × View)
without p [] = []
without p ((q, v) ∷ views) = let rest = without p views in if q == p then rest else (q, v) ∷ rest

-- `Exchange::update`
unfoldable pub update : ℕ → (View → View) → Activity → Activity
unfolding changed
update p change a = record a { in_flight = changed p change a.in_flight }

unfoldable pub push_recent : View → List View → List View
push_recent v recent =
    if length recent == recent_max then drop 1 recent ++ v ∷ [] else recent ++ v ∷ []

-- `Activity::complete`
unfoldable pub complete_view : ℕ → Activity → Activity
unfolding view_of without push_recent
complete_view p a = elim (view_of p a.in_flight) [
  | none ↦ a
  | some v ↦ record { in_flight = without p a.in_flight; recent = push_recent v a.recent }
]

-- `Exchange::finish`, once.
unfoldable pub finish : ℕ → Outcome → ℕ → Activity → Activity
unfolding update complete_view
finish p outcome elapsed a =
    complete_view p
      (update p (λ v. record v { outcome = some outcome; duration_ms = some elapsed }) a)

-- `get_or_insert`
abbrev pub or_insert {ℓ} : {A : Type ℓ} → A → Option A → Option A
or_insert a none = some a
or_insert a (some b) = some b

abbrev pub stopped_text : Text
stopped_text = ascii "a stop cut the request before it finished"

-- A request that a stop cut.
unfoldable pub cut_off : View → View
cut_off v = record v { status = or_insert 503 v.status; error = some stopped_text }

-- `Exchange::drop`, of an unfinished one; the flag is the stop's signal.
unfoldable pub drop_exchange : ℕ → Bool → ℕ → Activity → Activity
unfolding finish cut_off
drop_exchange p true elapsed a = finish p failed elapsed (update p cut_off a)
drop_exchange p false elapsed a = finish p client_disconnected elapsed a

-- `Tracked`: the scanner, and the exchange until the body ends.
pub record Tracked : Type 0 where
  pub scanner : Option UsageScanner
  pub exchange : Option ℕ

-- What ends a body: its end, an error, or the drop of a body that goes on.
pub data Ending : Type 0 where
  ended dropped : Ending
  broken : Text → Ending

unfoldable pub chunk_seen : ℕ → ℕ → View → View
chunk_seen elapsed size v = record v {
  ttfb_ms = or_insert elapsed v.ttfb_ms;
  bytes = (v.bytes + size) % 2 ^ 64;
}

module _ (j : Json) (cut : ℕ → Text → Text) where
  -- `Tracked::chunk`
  unfoldable pub chunk_in : ℕ → Text → Tracked × Activity → Tracked × Activity
  unfolding update chunk_seen feed_body
  chunk_in elapsed chunk (t, a) = (
    record t {
      scanner = elim t.scanner [ none ↦ none | some s ↦ some (feed_body j s.body s.found chunk) ];
    },
    elim t.exchange [ none ↦ a | some p ↦ update p (chunk_seen elapsed (length chunk)) a ],
  )

  abbrev pub failure_of : Ending → Scan → Option Text
  failure_of (broken why) scan = some why
  failure_of ended scan = scan.error
  failure_of dropped scan = scan.error

  -- What the scan tells of the body.
  unfoldable pub told : Scan → Option Text → View → View
  told scan failure v = record v {
    usage = elim scan.usage [ none ↦ v.usage | some u ↦ some u ];
    stop_reason = elim scan.stop_reason [ none ↦ none | some reason ↦ some (cut 40 reason) ];
    error = elim failure [ none ↦ v.error | some why ↦ some why ];
  }

  unfoldable pub ends_as : Ending → Option Text → ℕ → Bool → ℕ → Activity → Activity
  unfolding drop_exchange finish
  ends_as dropped failure p stop elapsed a = drop_exchange p stop elapsed a
  ends_as _ (some why) p stop elapsed a = finish p failed elapsed a
  ends_as _ none p stop elapsed a = finish p complete elapsed a

  -- `Tracked::end`
  unfoldable pub end_tracked : Ending → Bool → ℕ → Tracked × Activity → Tracked × Activity
  unfolding ends_as told finish_body
  end_tracked e stop elapsed (t, a) = elim t.exchange [
    | none ↦ (t, a)
    | some p ↦
        let scan : Scan = elim t.scanner [
          | none ↦ nothing_found
          | some s ↦ finish_body j s.body s.found
        ] in
        let failure = failure_of e scan in
        (
          record { scanner = none; exchange = none },
          ends_as e failure p stop elapsed (update p (told scan failure) a),
        )
  ]
