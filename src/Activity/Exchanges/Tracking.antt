-- ===== src/Activity/Exchanges/Tracking.antt =====
-- How a tracked body ends, in src/activity/exchange.rs.
use anthroxy.Prelude.{ℕ, Bool, true, false, none, some, List, [], ◌∷◌, map, Text}
use anthroxy.Json.{Json}
use anthroxy.Anthropic.Usage.{Scan, UsageScanner}
use anthroxy.Activity.Exchanges.Views.{outcome_of}
use anthroxy.Activity.Exchanges.{
  Outcome, View, Activity, cut_off, Tracked, Ending, ended, dropped, broken, chunk_in, failure_of,
  told,
}

abbrev closed_at : Outcome → ℕ → View → View
closed_at o elapsed v = record v { outcome = some o; duration_ms = some elapsed }

-- What a stop adds to a body that it cut.
abbrev pub stopped_view : Ending → Bool → View → View
stopped_view dropped true v = cut_off v
stopped_view dropped false v = v
stopped_view ended stop v = v
stopped_view (broken why) stop v = v

abbrev pub texts : List (ℕ × Text) → List Text
texts chunks = map (λ c. c.1) chunks

module _ (j : Json) (cut : ℕ → Text → Text) where
  -- The view that an exchange ends with.
  abbrev pub final : Ending → Bool → ℕ → Scan → View → View
  final e stop elapsed found v =
      let failure = failure_of j cut e found in
      closed_at (outcome_of e failure stop) elapsed
        (stopped_view e stop (told j cut found failure v))

  abbrev pub chunks_in : List (ℕ × Text) → Tracked × Activity → Tracked × Activity
  chunks_in [] s = s
  chunks_in ((elapsed, chunk) ∷ chunks) s = chunks_in chunks (chunk_in j cut elapsed chunk s)

  abbrev pub gone : Tracked
  gone = record { scanner = none; exchange = none }

  abbrev pub tracked : UsageScanner → ℕ → Tracked
  tracked s p = record { scanner = some s; exchange = some p }
