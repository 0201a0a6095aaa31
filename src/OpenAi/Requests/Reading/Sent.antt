-- ===== src/OpenAi/Requests/Reading/Sent.antt =====
-- What is read off the document of src/openai/request.rs is what was put into it.
use anthroxy.Prelude.{
  ◌≡◌, refl, ap, ◌∙◌, false, not, Option, none, some, List, [], ◌∷◌, map, if◌then◌else◌, all, drop,
  Text, ascii, text_eq, arith,
}
use anthroxy.Json.{Json, IsLawful, value_get, value_field, insert_some}
use anthroxy.Ir.Requests.{Role, user, assistant, system}
use anthroxy.OpenAi.Requests.{ChatToolCall, Content, ChatMessage, chat, tool_message}
use anthroxy.OpenAi.Requests.Calls.{calls, answers, call_steps, steps_of, steps}
use anthroxy.OpenAi.Requests.Systems.{not_system, only_first}
use anthroxy.OpenAi.Requests.Body.{role_name, unless_empty, call_value, message_value}
use anthroxy.OpenAi.Requests.Reading.{
  first_some, first_some-none, text_at, function_text_at, is_role, items_or_none, call_step,
  message_steps, steps_in, body_steps, system_leads,
}

module _ (j : Json) where
  open j use {Value, Object, as_array, as_str, get, object, array, string}

  module _ (lawful : IsLawful j) where
    pub get-insert_some :
        (k n : Text) (o : Option Value) (b : Object)
        → get (insert_some j k o b) n ≡ (if text_eq k n then first_some o (get b n) else get b n)
    unfolding first_some
    get-insert_some k n none b = ground arith
    get-insert_some k n (some v) b = lawful.get-insert k n v b

    pub value_get-object :
        (o : Object) (k : Text) (v : Value) → get o k ≡ some v → value_get j (object o) k ≡ some v
    value_get-object o k v e =
        ap (λ m. elim m [ none ↦ none | some p ↦ get p k ]) (lawful.as_object-object o) ∙ e

    value_field-string :
        (m : Value) (k t : Text)
        → value_get j m k ≡ some (string t)
        → value_field j as_str m k ≡ some t
    value_field-string m k t e =
        ap (λ o. elim o [ none ↦ none | some w ↦ as_str w ]) e ∙ lawful.as_str-string t

    text_at-string :
        (m : Value) (k t : Text) → value_get j m k ≡ some (string t) → (text_at j) k m ≡ t
    text_at-string m k t e =
        ap (λ o. elim o [ none ↦ [] | some u ↦ u ]) (value_field-string m k t e)

    is_role-string :
        (m : Value) (role t : Text)
        → value_get j m (ascii "role") ≡ some (string t)
        → (is_role j) role m ≡ text_eq t role
    is_role-string m role t e =
        ap (λ o. elim o [ none ↦ false | some r ↦ text_eq r role ])
          (value_field-string m (ascii "role") t e)

    -- The function of a call.
    abbrev function_fields : ChatToolCall → Object
    function_fields c =
        j.insert (ascii "arguments") (string c.arguments)
          (j.insert (ascii "name") (string c.function_name) j.empty)

    function-call_value :
        (c : ChatToolCall)
        → value_get j (call_value j c) (ascii "function") ≡ some (object (function_fields c))
    unfolding call_value text_eq
    function-call_value c = value_get-object _ (ascii "function") _ (simp lawful.get-insert refl)

    id-call_value : (c : ChatToolCall) → (text_at j) (ascii "id") (call_value j c) ≡ c.call_id
    unfolding call_value text_eq
    id-call_value c =
        text_at-string _ (ascii "id") c.call_id
          (value_get-object _ (ascii "id") _ (simp lawful.get-insert refl))

    -- A field of the function that a call names.
    function_text-call_value :
        (c : ChatToolCall) (key t : Text)
        → get (function_fields c) key ≡ some (string t)
        → (function_text_at j) key (call_value j c) ≡ t
    function_text-call_value c key t e =
        ap (λ o. elim o [ none ↦ [] | some f ↦ (text_at j) key f ]) (function-call_value c)
        ∙ text_at-string _ key t (value_get-object _ key _ e)

    call_step-call_value :
        (c : ChatToolCall)
        → (call_step j) (call_value j c) ≡ calls c.call_id c.function_name c.arguments
    unfolding call_step text_eq
    call_step-call_value c =
        let v = call_value j c in
        ap
          (λ id.
            calls id ((function_text_at j) (ascii "name") v)
              ((function_text_at j) (ascii "arguments") v))
          (id-call_value c)
        ∙ ap (λ name. calls c.call_id name ((function_text_at j) (ascii "arguments") v))
            (function_text-call_value c (ascii "name") c.function_name
              (simp lawful.get-insert refl))
        ∙ ap (λ a. calls c.call_id c.function_name a)
            (function_text-call_value c (ascii "arguments") c.arguments
              (simp lawful.get-insert refl))

    call_steps-map :
        (cs : List ChatToolCall) → map (call_step j) (map (call_value j) cs) ≡ call_steps cs
    call_steps-map [] = refl
    call_steps-map (c ∷ cs) = rw (call_step-call_value c, call_steps-map cs) refl

    role-chat :
        (role : Role) (content : Option Content) (cs : List ChatToolCall)
        → value_get j (message_value j (chat role content cs)) (ascii "role")
          ≡ some (string (role_name role))
    unfolding message_value text_eq
    role-chat role content cs =
        value_get-object _ (ascii "role") _ (simp (get-insert_some, lawful.get-insert) refl)

    calls-chat :
        (role : Role) (content : Option Content) (cs : List ChatToolCall)
        → value_get j (message_value j (chat role content cs)) (ascii "tool_calls")
          ≡ unless_empty (λ cs. array (map (call_value j) cs)) cs
    unfolding message_value text_eq
    calls-chat role content cs =
        ap (λ m. elim m [ none ↦ none | some p ↦ get p (ascii "tool_calls") ])
          (lawful.as_object-object _)
        ∙ simp (get-insert_some, lawful.get-insert, lawful.get-empty) (first_some-none _)

    not_tool :
        (role : Role) (content : Option Content) (cs : List ChatToolCall)
        → (is_role j) (ascii "tool") (message_value j (chat role content cs)) ≡ false
    unfolding text_eq
    not_tool user content cs = is_role-string _ _ _ (role-chat user content cs)
    not_tool assistant content cs = is_role-string _ _ _ (role-chat assistant content cs)
    not_tool system content cs = is_role-string _ _ _ (role-chat system content cs)

    role-tool :
        (id content : Text)
        → value_get j (message_value j (tool_message id content)) (ascii "role")
          ≡ some (string (ascii "tool"))
    unfolding message_value text_eq
    role-tool id content = value_get-object _ (ascii "role") _ (simp lawful.get-insert refl)

    id-tool :
        (id content : Text)
        → (text_at j) (ascii "tool_call_id") (message_value j (tool_message id content)) ≡ id
    unfolding message_value text_eq
    id-tool id content =
        text_at-string _ (ascii "tool_call_id") id
          (value_get-object _ (ascii "tool_call_id") _ (simp lawful.get-insert refl))

    items-call_steps :
        (cs : List ChatToolCall)
        → map
            (call_step j)
            ((items_or_none j) (unless_empty (λ cs'. array (map (call_value j) cs')) cs))
          ≡ call_steps cs
    items-call_steps [] = refl
    items-call_steps (c ∷ cs) =
        ap (λ o. map (call_step j) (elim o [ none ↦ [] | some vs ↦ vs ]))
          (lawful.as_array-array (map (call_value j) (c ∷ cs)))
        ∙ call_steps-map (c ∷ cs)

    content-tool :
        (id content : Text)
        → (text_at j) (ascii "content") (message_value j (tool_message id content)) ≡ content
    unfolding message_value text_eq
    content-tool id content =
        text_at-string _ (ascii "content") content
          (value_get-object _ (ascii "content") _ (simp lawful.get-insert refl))

    message_steps-message_value :
        (m : ChatMessage) → (message_steps j) (message_value j m) ≡ steps_of m
    unfolding message_steps text_eq
    message_steps-message_value (tool_message id content) =
        let m = message_value j (tool_message id content) in
        ap
          (λ b.
            if b
            then answers ((text_at j) (ascii "tool_call_id") m) ((text_at j) (ascii "content") m)
              ∷ []
            else map (call_step j) ((items_or_none j) (value_get j m (ascii "tool_calls"))))
          (is_role-string m (ascii "tool") (ascii "tool") (role-tool id content))
        ∙ ap (λ t. answers t ((text_at j) (ascii "content") m) ∷ []) (id-tool id content)
        ∙ ap (λ t. answers id t ∷ []) (content-tool id content)
    message_steps-message_value (chat role content cs) =
        let m = message_value j (chat role content cs) in
        ap
          (λ b.
            if b
            then answers ((text_at j) (ascii "tool_call_id") m) ((text_at j) (ascii "content") m)
              ∷ []
            else map (call_step j) ((items_or_none j) (value_get j m (ascii "tool_calls"))))
          (not_tool role content cs)
        ∙ ap (λ v. map (call_step j) ((items_or_none j) v)) (calls-chat role content cs)
        ∙ items-call_steps cs

    steps_in-map : (ms : List ChatMessage) → (steps_in j) (map (message_value j) ms) ≡ steps ms
    unfolding steps_in steps
    steps_in-map [] = refl
    steps_in-map (m ∷ ms) = rw (message_steps-message_value m, steps_in-map ms) refl

    says_system-message_value :
        (m : ChatMessage) → not ((is_role j) (ascii "system") (message_value j m)) ≡ not_system m
    unfolding message_value text_eq
    says_system-message_value (tool_message id content) =
        ap not (is_role-string _ _ _ (role-tool id content))
    says_system-message_value (chat user content cs) =
        ap not (is_role-string _ _ _ (role-chat user content cs))
    says_system-message_value (chat assistant content cs) =
        ap not (is_role-string _ _ _ (role-chat assistant content cs))
    says_system-message_value (chat system content cs) =
        ap not (is_role-string _ _ _ (role-chat system content cs))

    all-map :
        (ms : List ChatMessage)
        → all (λ m. not ((is_role j) (ascii "system") m)) (map (message_value j) ms)
          ≡ all not_system ms
    all-map [] = refl
    all-map (m ∷ ms) = rw (says_system-message_value m, all-map ms) refl

    all-rest :
        (ms : List ChatMessage)
        → all (λ m. not ((is_role j) (ascii "system") m)) (drop 1 (map (message_value j) ms))
          ≡ all not_system (drop 1 ms)
    all-rest [] = refl
    all-rest (m ∷ ms) = all-map ms

    -- What stands in the messages of a body is read back.
    pub body_steps-sent :
        (b : Object) (ms : List ChatMessage)
        → get b (ascii "messages") ≡ some (array (map (message_value j) ms))
        → (body_steps j) b ≡ steps ms
    unfolding body_steps
    body_steps-sent b ms e =
        ap (λ v. (steps_in j) ((items_or_none j) v)) e
        ∙ ap (λ o. (steps_in j) (elim o [ none ↦ [] | some vs ↦ vs ]))
            (lawful.as_array-array (map (message_value j) ms))
        ∙ steps_in-map ms

    pub system_leads-sent :
        (b : Object) (ms : List ChatMessage)
        → get b (ascii "messages") ≡ some (array (map (message_value j) ms))
        → (system_leads j) b ≡ only_first ms
    unfolding system_leads only_first
    system_leads-sent b ms e =
        ap (λ v. all (λ m. not ((is_role j) (ascii "system") m)) (drop 1 ((items_or_none j) v))) e
        ∙ ap
            (λ o.
              all (λ m. not ((is_role j) (ascii "system") m))
                (drop 1 (elim o [ none ↦ [] | some vs ↦ vs ])))
            (lawful.as_array-array (map (message_value j) ms))
        ∙ all-rest ms
