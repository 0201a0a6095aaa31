-- ===== src/Anthropic/Usage.antt =====
-- src/anthropic/usage.rs: the token counts, the stop reason and the error in an answer, read from its
-- bytes as they pass. The crate serde_json is the argument `j`.
pub mod Chunks
mod Tests
use anthroxy.Prelude.{
  ℕ, ◌+◌, ◌-◌, ◌^◌, ◌*◌, ◌<◌, ltb, min, Bool, true, false, ◌||◌, not, Option, none, some, List, [],
  ◌∷◌, ◌++◌, if◌then◌else◌, any, length, Text, ascii, text_eq, starts_with, contains, trim_start,
  Result, ok, err,
}
use anthroxy.Json.{Json, value_get, value_field, field}
use anthroxy.Sse.{Parser, Frame, SseError, fresh, feed, finish}
use anthroxy.OpenAi.Usages.{saturating_add}
use anthroxy.Config.DropHeaders.{lower}

pub record TokenUsage : Type 0 where
  pub input : ℕ
  pub output : ℕ
  pub cache_read : ℕ
  pub cache_creation : ℕ
  pub cache_reported : Bool

-- `TokenUsage::default()`
abbrev pub no_tokens : TokenUsage
no_tokens = record {
  input = 0;
  output = 0;
  cache_read = 0;
  cache_creation = 0;
  cache_reported = false;
}

unfoldable pub cache_known : TokenUsage → Bool
cache_known u = u.cache_reported || (ltb 0 u.cache_read || ltb 0 u.cache_creation)

unfoldable pub prompt : TokenUsage → ℕ
prompt u = saturating_add (saturating_add u.input u.cache_read) u.cache_creation

pub record Scan : Type 0 where
  pub usage : Option TokenUsage
  pub error : Option Text
  pub stop_reason : Option Text

abbrev pub nothing_found : Scan
nothing_found = record { usage = none; error = none; stop_reason = none }

-- `MAX_DOCUMENT_BYTES`
abbrev pub max_document_bytes : ℕ
max_document_bytes = 8 * 1024 * 1024

pub data Body : Type 0 where
  events : Parser → Body
  -- None once the document outgrew its limit.
  document : Option Text → Body
  unreadable : Body

pub record UsageScanner : Type 0 where
  pub body : Body
  pub found : Scan

unfoldable pub is_events : Option Text → Bool
unfolding trim_start
is_events none = false
is_events (some t) = starts_with (ascii "text/event-stream") (lower (trim_start t))

unfoldable pub for_content_type : Option Text → UsageScanner
unfolding is_events
for_content_type content_type = record {
  body = if is_events content_type then events fresh else document (some []);
  found = nothing_found;
}

-- Only a frame with one of these can say something.
abbrev pub can_tell : Text → Bool
can_tell payload =
    any (λ key. contains key payload)
      (ascii "\"usage\"" ∷ ascii "\"error\"" ∷ ascii "\"stop_reason\"" ∷ [])

module _ (j : Json) where
  open j use {Value, Object, as_object, as_str, as_u64, get}

  unfoldable pub has : Object → Text → Bool
  has fields key = elim (get fields key) [ none ↦ false | some v ↦ true ]

  -- A count that the fields name, else the one before.
  unfoldable pub counted : Object → Text → ℕ → ℕ
  counted fields key old = elim (field j as_u64 fields key) [ none ↦ old | some n ↦ n ]

  unfoldable pub sum_counts : ℕ → List Value → ℕ
  sum_counts total [] = total
  sum_counts total (v ∷ vs) =
      sum_counts (elim (as_u64 v) [ none ↦ total | some n ↦ saturating_add total n ]) vs

  unfoldable pub overlaid : Object → TokenUsage → TokenUsage
  unfolding has counted sum_counts
  overlaid fields u =
      let created = counted fields (ascii "cache_creation_input_tokens") u.cache_creation in
      let reported = any (has fields) (
        ascii "cache_read_input_tokens"
        ∷ ascii "cache_creation_input_tokens"
        ∷ ascii "cache_creation"
        ∷ []) in
      let nested : ℕ = elim (field j as_object fields (ascii "cache_creation")) [
        | none ↦ created
        | some parts ↦ sum_counts 0 (j.values parts)
      ] in
      record {
        input = counted fields (ascii "input_tokens") u.input;
        output = counted fields (ascii "output_tokens") u.output;
        cache_read = counted fields (ascii "cache_read_input_tokens") u.cache_read;
        cache_creation =
            if has fields (ascii "cache_creation_input_tokens") then created else nested;
        cache_reported = reported || u.cache_reported;
      }

  unfoldable pub overlay : Option Value → Scan → Scan
  unfolding overlaid
  overlay none s = s
  overlay (some v) s = elim (as_object v) [
    | none ↦ s
    | some fields ↦ record s {
      usage = some (overlaid fields (elim s.usage [ none ↦ no_tokens | some u ↦ u ]));
    }
  ]

  unfoldable pub stopped : Option Value → Scan → Scan
  stopped none s = s
  stopped (some v) s = elim (as_str v) [
    | none ↦ s
    | some reason ↦ record s { stop_reason = some reason }
  ]

  unfoldable pub error_said : Value → Option Text → Option Text → Text
  error_said e (some kind) (some message) = kind ++ (ascii ": " ++ message)
  error_said e none (some message) = message
  error_said e (some kind) none = kind
  error_said e none none = j.to_string e

  unfoldable pub error_text : Value → Option Text
  unfolding error_said
  error_text v = elim (value_get j v (ascii "error")) [
    | none ↦ none
    | some e ↦ some (
        error_said e (value_field j as_str e (ascii "type"))
          (value_field j as_str e (ascii "message")))
  ]

  -- `pointer` of two steps.
  abbrev pub below : Text → Text → Value → Option Value
  below first then_key v = elim (value_get j v first) [
    | none ↦ none
    | some w ↦ value_get j w then_key
  ]

  unfoldable pub typed : Value → Text → Bool
  typed v name = elim (value_field j as_str v (ascii "type")) [
    | none ↦ false
    | some t ↦ text_eq t name
  ]

  unfoldable pub scan_event : Value → Scan → Scan
  unfolding overlay stopped error_text typed
  scan_event v s =
      if typed v (ascii "message_start")
      then overlay (below (ascii "message") (ascii "usage") v) s
      else if typed v (ascii "message_delta")
      then stopped (below (ascii "delta") (ascii "stop_reason") v)
          (overlay (value_get j v (ascii "usage")) s)
      else if typed v (ascii "error")
      then record s { error = error_text v }
      else s

  unfoldable pub scan_frame : Frame → Scan → Scan
  unfolding scan_event contains
  scan_frame f s =
      if can_tell f.payload
      then elim (j.from_slice f.payload) [ err why ↦ s | ok v ↦ scan_event v s ]
      else s

  unfoldable pub frames : List Frame → Scan → Scan
  unfolding scan_frame
  frames [] s = s
  frames (f ∷ fs) s = frames fs (scan_frame f s)

  -- What the parser answered to a chunk.
  unfoldable pub fed_events : Result SseError (List Frame) × Parser → Scan → UsageScanner
  unfolding frames
  fed_events (ok fs, p) s = record { body = events p; found = frames fs s }
  fed_events (err e, p) s = record { body = unreadable; found = s }

  unfoldable pub feed_body : Body → Scan → Text → UsageScanner
  unfolding fed_events
  feed_body (events p) s chunk = fed_events (feed p chunk) s
  feed_body (document none) s chunk = record { body = document none; found = s }
  feed_body (document (some bytes)) s chunk = record {
    body = document (
        if ltb max_document_bytes (length bytes + length chunk)
        then none
        else some (bytes ++ chunk));
    found = s;
  }
  feed_body unreadable s chunk = record { body = unreadable; found = s }

  unfoldable pub scan_document : Value → Scan → Scan
  unfolding typed error_text stopped overlay
  scan_document v s =
      if typed v (ascii "error")
      then record s { error = error_text v }
      else stopped (value_get j v (ascii "stop_reason")) (overlay (value_get j v (ascii "usage")) s)

  unfoldable pub finish_body : Body → Scan → Scan
  unfolding frames scan_document
  finish_body (events p) s = elim (finish p).0 [ ok fs ↦ frames fs s | err e ↦ s ]
  finish_body (document none) s = s
  finish_body (document (some bytes)) s = elim (j.from_slice bytes) [
    | err why ↦ s
    | ok v ↦ scan_document v s
  ]
  finish_body unreadable s = s
