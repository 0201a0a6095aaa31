-- ===== src/OpenAi/Requests/Body.antt =====
-- The body of a chat completion as a document: `encode` of src/openai/request.rs, with the values that
-- its messages are.
use anthroxy.Prelude.{
  Bool, true, false, ◌&&◌, Option, none, some, List, [], ◌∷◌, map, if◌then◌else◌, Text, ascii,
  text_eq,
}
use anthroxy.Json.{Json, field, insert_some, json_object}
use anthroxy.Ir.Requests.{
  Role, user, assistant, system, ToolChoice, choose_auto, choose_required, choose_none, choose_tool,
  Tool, Request,
}
use anthroxy.OpenAi.Requests.{
  SystemPlacement, ChatToolCall, ContentPart, text_part, image_url, Content, plain, parts_of,
  ChatMessage, chat, tool_message, chat_messages,
}

abbrev pub role_name : Role → Text
role_name user = ascii "user"
role_name assistant = ascii "assistant"
role_name system = ascii "system"

-- A field that is there when a list has items.
abbrev pub unless_empty {ℓ} : {A : Type 0} {B : Type ℓ} → (List A → B) → List A → Option B
unless_empty f [] = none
unless_empty f (a ∷ more) = some (f (a ∷ more))

module _ (j : Json) where
  open j use {Value, Object, as_object, as_str, get, insert, object, array, string, boolean}

  unfoldable pub part_value : ContentPart → Value
  part_value (text_part t) =
      json_object j ((ascii "type", string (ascii "text")) ∷ (ascii "text", string t) ∷ [])
  part_value (image_url url) = json_object j (
      (ascii "type", string (ascii "image_url"))
      ∷ (ascii "image_url", json_object j ((ascii "url", string url) ∷ []))
      ∷ [])

  unfoldable pub content_value : Content → Value
  unfolding part_value
  content_value (plain t) = string t
  content_value (parts_of ps) = array (map part_value ps)

  unfoldable pub call_value : ChatToolCall → Value
  call_value c = json_object j (
      (ascii "id", string c.call_id)
      ∷ (ascii "type", string (ascii "function"))
      ∷ (
        ascii "function",
        json_object j
            ((ascii "name", string c.function_name) ∷ (ascii "arguments", string c.arguments) ∷ []),
      )
      ∷ [])

  unfoldable pub message_value : ChatMessage → Value
  unfolding content_value call_value
  message_value (chat role content calls) =
      let of_role = insert (ascii "role") (string (role_name role)) j.empty in
      let said =
        insert_some j (ascii "content")
          (elim content [ none ↦ none | some c ↦ some (content_value c) ]) of_role in
      object (
        insert_some j (ascii "tool_calls") (unless_empty (λ cs. array (map call_value cs)) calls)
          said)
  message_value (tool_message id content) = json_object j (
      (ascii "role", string (ascii "tool"))
      ∷ (ascii "tool_call_id", string id)
      ∷ (ascii "content", string content)
      ∷ [])

  -- An object schema always has `properties`.
  unfoldable pub with_properties : Value → Value
  with_properties schema = elim (as_object schema) [
    | none ↦ schema
    | some fields ↦
        let is_object : Bool = elim (field j as_str fields (ascii "type")) [
          | none ↦ false
          | some t ↦ text_eq t (ascii "object")
        ] in
        let lacks : Bool = elim (get fields (ascii "properties")) [
          | none ↦ true
          | some p ↦ false
        ] in
        if is_object && lacks
        then object (insert (ascii "properties") (object j.empty) fields)
        else schema
  ]

  unfoldable pub tool_value : Tool Value j.Float → Value
  unfolding with_properties
  tool_value t =
      let named = insert (ascii "name") (string t.name) j.empty in
      let described =
        insert_some j (ascii "description")
          (elim t.description [ none ↦ none | some d ↦ some (string d) ]) named in
      json_object j (
        (ascii "type", string (ascii "function"))
        ∷ (
          ascii "function",
          object (insert (ascii "parameters") (with_properties t.parameters) described),
        )
        ∷ [])

  unfoldable pub choice_value : ToolChoice → Value
  choice_value choose_auto = string (ascii "auto")
  choice_value choose_required = string (ascii "required")
  choice_value choose_none = string (ascii "none")
  choice_value (choose_tool name) = json_object j (
      (ascii "type", string (ascii "function"))
      ∷ (ascii "function", json_object j ((ascii "name", string name) ∷ []))
      ∷ [])

  abbrev pub if_some {ℓ} : {A : Type ℓ} → (A → Value) → Option A → Option Value
  if_some f none = none
  if_some f (some a) = some (f a)

  abbrev pub when : Bool → Value → Option Value
  when b v = if b then some v else none

  -- The body, one field after the other.
  unfoldable pub encode : Request Value j.Float → SystemPlacement → Object
  unfolding chat_messages message_value tool_value choice_value
  encode r placement =
      let o1 = insert (ascii "model") (string r.model) j.empty in
      let messages = array (map message_value (chat_messages j j.Float placement r)) in
      let o2 = insert (ascii "messages") messages o1 in
      let o3 =
        insert_some j (ascii "tools") (unless_empty (λ ts. array (map tool_value ts)) r.tools) o2 in
      let o4 = insert_some j (ascii "tool_choice") (if_some choice_value r.tool_choice) o3 in
      let o5 = insert_some j (ascii "max_tokens") (if_some j.number r.max_tokens) o4 in
      let o6 = insert_some j (ascii "temperature") (if_some j.float r.temperature) o5 in
      let o7 = insert_some j (ascii "top_p") (if_some j.float r.top_p) o6 in
      let o8 =
        insert_some j (ascii "stop") (unless_empty (λ stops. array (map string stops)) r.stop) o7 in
      let o9 =
        insert_some j (ascii "parallel_tool_calls")
          (when r.disable_parallel_tool_calls (boolean false)) o8 in
      let o10 = insert_some j (ascii "reasoning_effort") (if_some string r.reasoning_effort) o9 in
      let o11 = insert_some j (ascii "user") (if_some string r.user_of) o10 in
      let o12 = insert (ascii "stream") (boolean r.stream) o11 in
      insert_some j (ascii "stream_options")
        (when r.stream (json_object j ((ascii "include_usage", boolean true) ∷ []))) o12
