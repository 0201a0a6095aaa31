-- ===== src/Activity/Exchanges/Tests.antt =====
-- A stream that ends after two chunks.
use anthroxy.Prelude.{ℕ, ◌≡◌, none, some, Option, List, [], ◌∷◌, Text, ascii}
use anthroxy.Json.{Json}
use anthroxy.Json.Tree.{words, tree}
use anthroxy.Activity.Exchanges.{View, Activity}
use anthroxy.Activity.Exchanges.Recent.{kept, last_ones, kept-from_none}

abbrev j : Json
j = tree (words [])

abbrev whole : ℕ → Text → Text
whole n t = t

abbrev begun : View
begun = record {
  status = some 200;
  ttfb_ms = none;
  duration_ms = none;
  bytes = 0;
  usage = none;
  stop_reason = none;
  outcome = none;
  error = none;
}

abbrev activity : Activity
activity = record { in_flight = (7, begun) ∷ []; recent = [] }

abbrev stream : Option Text
stream = some (ascii "text/event-stream")

abbrev chunks : List (ℕ × Text)
chunks = (3, ascii "data: a\n") ∷ (5, ascii "\n") ∷ []

kept-from_none_example : kept [] (begun ∷ begun ∷ []) ≡ last_ones (begun ∷ begun ∷ [])
kept-from_none_example = kept-from_none (begun ∷ begun ∷ [])
