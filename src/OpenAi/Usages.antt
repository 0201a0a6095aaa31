-- ===== src/OpenAi/Usages.antt =====
-- src/openai/common.rs, `usage_event`: the counts of a response.
use anthroxy.Prelude.{
  ℕ, ◌+◌, ◌-◌, ◌^◌, Bool, true, false, ◌||◌, Option, none, some, List, [], ◌∷◌, Text, ascii, min,
  max,
}
use anthroxy.Ir.{Usage, Event, usage}
use anthroxy.Json.{Json, field, value_get}

-- `u64::MAX`
abbrev pub u64_max : ℕ
u64_max = 2 ^ 64 - 1

abbrev pub saturating_add : ℕ → ℕ → ℕ
saturating_add a b = min (a + b) u64_max

abbrev pub or_zero : Option ℕ → ℕ
or_zero none = 0
or_zero (some n) = n

abbrev pub is_some {ℓ} : {A : Type ℓ} → Option A → Bool
is_some none = false
is_some (some a) = true

-- `CACHE_READ` and `CACHE_WRITE`, each path split at its dots.
abbrev pub cache_read : List (List Text)
cache_read =
    (ascii "prompt_tokens_details" ∷ ascii "cached_tokens" ∷ [])
    ∷ (ascii "prompt_cache_hit_tokens" ∷ [])
    ∷ (ascii "cached_tokens" ∷ [])
    ∷ (ascii "cache_read_input_tokens" ∷ [])
    ∷ []

abbrev pub cache_write : List (List Text)
cache_write =
    (ascii "prompt_tokens_details" ∷ ascii "cache_write_tokens" ∷ [])
    ∷ (ascii "prompt_tokens_details" ∷ ascii "created_cache_tokens" ∷ [])
    ∷ (ascii "prompt_tokens_details" ∷ ascii "cache_creation_tokens" ∷ [])
    ∷ (ascii "cache_creation_input_tokens" ∷ [])
    ∷ []

-- `max` over the paths that hold a count: `None` where none does.
abbrev pub larger : Option ℕ → Option ℕ → Option ℕ
larger none b = b
larger (some a) none = some a
larger (some a) (some b) = some (max a b)

-- What the counts of a backend mean: those that it names, apart from how they are read.
pub record Counts : Type 0 where
  pub prompt : Option ℕ
  pub completion : Option ℕ
  pub total : Option ℕ
  pub read : Option ℕ
  pub written : Option ℕ
  pub reasoning : Option ℕ

unfoldable pub usage_of : Counts → Usage
usage_of c =
    let cached = saturating_add (or_zero c.read) (or_zero c.written) in
    let prompt : ℕ = elim c.prompt [ some n ↦ n | none ↦ or_zero c.total - or_zero c.completion ] in
    record {
      input_tokens = prompt - cached;
      output_tokens = or_zero c.completion;
      cache_read_tokens = or_zero c.read;
      cache_creation_tokens = or_zero c.written;
      cache_reported = is_some c.read || is_some c.written;
      thinking_tokens = or_zero c.reasoning;
    }

module _ (j : Json) where
  open j use {Value, Object, as_object, as_u64, get}

  -- The steps of a path past its first.
  unfoldable pub walk : Value → List Text → Option Value
  walk v [] = some v
  walk v (step ∷ steps) = elim (value_get j v step) [ none ↦ none | some w ↦ walk w steps ]

  unfoldable pub count_at : Object → List Text → Option ℕ
  unfolding walk
  count_at u [] = none
  count_at u (step ∷ steps) = elim (get u step) [
    | none ↦ none
    | some v ↦ elim (walk v steps) [ none ↦ none | some w ↦ as_u64 w ]
  ]

  unfoldable pub largest : Object → List (List Text) → Option ℕ
  unfolding count_at
  largest u [] = none
  largest u (path ∷ paths) = larger (count_at u path) (largest u paths)

  unfoldable pub usage_event : Object → Option Event
  unfolding largest usage_of
  usage_event root = elim (field j as_object root (ascii "usage")) [
    | none ↦ none
    | some u ↦ some (
        usage (
          usage_of (record {
            prompt = field j as_u64 u (ascii "prompt_tokens");
            completion = field j as_u64 u (ascii "completion_tokens");
            total = field j as_u64 u (ascii "total_tokens");
            read = largest u cache_read;
            written = largest u cache_write;
            reasoning =
                count_at u (ascii "completion_tokens_details" ∷ ascii "reasoning_tokens" ∷ []);
          })))
  ]
