-- ===== src/OpenAi/Requests/Reading.antt =====
-- What a backend reads in the document that src/openai/request.rs makes: the tool calls and results of
-- its messages and their roles, off the JSON.
pub mod Sent
use anthroxy.Prelude.{
  ◌≡◌, refl, Bool, false, not, Option, none, some, List, [], ◌∷◌, ◌++◌, map, if◌then◌else◌, all,
  drop, Text, ascii, text_eq, arith,
}
use anthroxy.Json.{Json, value_get, value_field}
use anthroxy.Ir.Requests.{system}
use anthroxy.OpenAi.Requests.Calls.{ToolStep, calls, answers}

pub first_some : {A : Type 0} → Option A → Option A → Option A
first_some none b = b
first_some (some a) b = some a

pub first_some-none : {A : Type 0} (o : Option A) → first_some o none ≡ o
unfolding first_some
first_some-none none = refl
first_some-none (some a) = refl

module _ (j : Json) where
  open j use {Value, Object, as_array, as_str, get, object, array, string}

  -- A field that is a text.
  abbrev pub text_at : Text → Value → Text
  text_at key v = elim (value_field j as_str v key) [ none ↦ [] | some t ↦ t ]

  -- A field of the function that a call names.
  abbrev pub function_text_at : Text → Value → Text
  function_text_at key v = elim (value_get j v (ascii "function")) [
    | none ↦ []
    | some f ↦ text_at key f
  ]

  abbrev pub is_role : Text → Value → Bool
  is_role role m = elim (value_field j as_str m (ascii "role")) [
    | none ↦ false
    | some r ↦ text_eq r role
  ]

  abbrev pub items_or_none : Option Value → List Value
  items_or_none none = []
  items_or_none (some v) = elim (as_array v) [ none ↦ [] | some vs ↦ vs ]

  unfoldable pub call_step : Value → ToolStep
  call_step v =
      calls (text_at (ascii "id") v) (function_text_at (ascii "name") v)
        (function_text_at (ascii "arguments") v)

  unfoldable pub message_steps : Value → List ToolStep
  unfolding call_step
  message_steps m =
      if is_role (ascii "tool") m
      then answers (text_at (ascii "tool_call_id") m) (text_at (ascii "content") m) ∷ []
      else map call_step (items_or_none (value_get j m (ascii "tool_calls")))

  unfoldable pub steps_in : List Value → List ToolStep
  unfolding message_steps
  steps_in [] = []
  steps_in (m ∷ ms) = message_steps m ++ steps_in ms

  -- The tool calls and results of a body, in order.
  unfoldable pub body_steps : Object → List ToolStep
  unfolding steps_in
  body_steps b = steps_in (items_or_none (get b (ascii "messages")))

  -- No message of the body but the first has the role of a system message.
  unfoldable pub system_leads : Object → Bool
  system_leads b =
      all (λ m. not (is_role (ascii "system") m))
        (drop 1 (items_or_none (get b (ascii "messages"))))
