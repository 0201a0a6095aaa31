-- ===== src/Anthropic/Usage/Tests.antt =====
-- A delta with usage, cut in two ways.
use mathlib.Core.List.{flatten}
use anthroxy.Prelude.{
  ◌≡◌, refl, some, none, List, [], ◌∷◌, Text, ascii, position, join, split_on, strip_prefix, arith,
  trim_start, contains, text_eq, Option, false,
}
use anthroxy.Json.{Json}
use anthroxy.Json.Tree.{Tree, amount, words, obj, end, with, get_field, tree}
use anthroxy.Sse.{feed, finish}
use anthroxy.Sse.Chunks.{feed_all}
use anthroxy.Anthropic.Usage.Chunks.{IsReadable, scan, scan-rechunk}

abbrev delta : Tree
delta = obj (
    with "type" (words (ascii "message_delta"))
      (with "usage" (obj (with "output_tokens" (amount 9) end)) end))

abbrev j : Json
j = tree delta

abbrev stream : Option Text
stream = some (ascii "text/event-stream")

abbrev whole : List Text
whole = ascii "data: \"usage\"\n\n" ∷ []

abbrev halves : List Text
halves = ascii "data: \"us" ∷ ascii "age\"\n\n" ∷ []

found : scan j stream whole ≡ record {
  usage = some (record {
    input = 0;
    output = 9;
    cache_read = 0;
    cache_creation = 0;
    cache_reported = false;
  });
  error = none;
  stop_reason = none;
}
unfolding scan feed finish position join split_on strip_prefix get_field text_eq contains trim_start
found = refl

halves-IsReadable : IsReadable halves whole
unfolding feed_all feed position join split_on strip_prefix
halves-IsReadable = record {
  fits = omega arith;
  fits_too = omega arith;
  read = record { payload = ascii "\"usage\"" } ∷ [];
  well_formed = refl;
}

scan-rechunk_example : scan j stream halves ≡ scan j stream whole
unfolding flatten
scan-rechunk_example = scan-rechunk j stream halves whole refl (λ e. halves-IsReadable)
