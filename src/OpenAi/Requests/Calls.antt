-- ===== src/OpenAi/Requests/Calls.antt =====
-- The tool calls and their results through `encode` of src/openai/request.rs.
use anthroxy.Prelude.{
  ℕ, ◌==◌, if◌then◌else◌, length, ascii, decimal, map, ◌≡◌, refl, ap, ◌∙◌, sym, Bool, true, false,
  ◌&&◌, not, Option, none, some, List, [], ◌∷◌, ◌++◌, append-nil, append_assoc, is_empty, Text, All,
  arith, Bool-cases, inl, inr,
}
use anthroxy.Json.{Json}
use anthroxy.Ir.Requests.{
  Role, system, Image, Part, text_of_part, image, tool_use, tool_result, RequestMessage, Request,
}
use anthroxy.OpenAi.Requests.{
  text_separator, result_text, SystemPlacement, keep, merge, as_user, ChatToolCall, Content,
  ChatMessage, chat, tool_message, content_of, pieces_of, calls_of, tool_messages, own_message,
  encode_message, is_system, placed, place, reminder, chat_messages, system_text,
}

-- What is done with a tool, on the way to a backend.
pub data ToolStep : Type 0 where
  -- id, name, arguments
  calls : Text → Text → Text → ToolStep
  -- tool_call_id, the text of the result
  answers : Text → Text → ToolStep

abbrev pub call_steps : List ChatToolCall → List ToolStep
call_steps [] = []
call_steps (c ∷ cs) = calls c.call_id c.function_name c.arguments ∷ call_steps cs

-- The steps that messages tell.
abbrev pub steps_of : ChatMessage → List ToolStep
steps_of (chat role content tools) = call_steps tools
steps_of (tool_message id content) = answers id content ∷ []

unfoldable pub steps : List ChatMessage → List ToolStep
steps [] = []
steps (m ∷ ms) = steps_of m ++ steps ms

steps-append : (xs ys : List ChatMessage) → steps (xs ++ ys) ≡ steps xs ++ steps ys
unfolding steps
steps-append [] ys = refl
steps-append (x ∷ xs) ys =
    rw (steps-append xs ys) (sym (append_assoc (steps_of x) (steps xs) (steps ys)))

steps-own_message :
    (role : Role) (content : Option Content) (tools : List ChatToolCall) (emitted : Bool)
    → steps (own_message role content tools emitted) ≡ call_steps tools
unfolding steps own_message
steps-own_message role (some content) tools emitted = append-nil (call_steps tools)
steps-own_message role none [] true = refl
steps-own_message role none [] false = refl
steps-own_message role none (c ∷ tools) emitted = append-nil (call_steps (c ∷ tools))

-- A step without the text of a result.
abbrev pub by_id : ToolStep → ToolStep
by_id (calls id name arguments) = calls id name arguments
by_id (answers id content) = answers id []

by_id-append : (xs ys : List ToolStep) → map by_id (xs ++ ys) ≡ map by_id xs ++ map by_id ys
by_id-append [] ys = refl
by_id-append (x ∷ xs) ys = ap (λ s. by_id x ∷ s) (by_id-append xs ys)

-- What says how many images follow.
abbrev pub images_note : ℕ → Text
images_note n =
    if n == 1
    then ascii "(1 image from this tool call follows in the next user message)"
    else ascii "("
      ++ (decimal n ++ ascii " images from this tool call follow in the next user message)")

-- The text of a result as it is to be sent: marked if the tool failed, and then the count of its images
-- if there are any.
abbrev pub sent_text : Text → List Image → Bool → Text
sent_text content [] false = content
sent_text content [] true = ascii "[tool error]" ++ (10 ∷ content)
sent_text [] (i ∷ images) false = images_note (length (i ∷ images))
sent_text (c ∷ content) (i ∷ images) false =
    (c ∷ content) ++ (text_separator ++ images_note (length (i ∷ images)))
sent_text content (i ∷ images) true =
    (ascii "[tool error]" ++ (10 ∷ content))
    ++ (text_separator ++ images_note (length (i ∷ images)))

result_text-sent_text :
    (content : Text) (images : List Image) (is_error : Bool)
    → result_text content images is_error ≡ sent_text content images is_error
unfolding result_text
result_text-sent_text content [] false = refl
result_text-sent_text content [] true = refl
result_text-sent_text [] (i ∷ images) false = refl
result_text-sent_text (c ∷ content) (i ∷ images) false = refl
result_text-sent_text content (i ∷ images) true = refl

module _ (j : Json) (Float : Type 0) where
  open j use {Value}

  -- The results without their texts, and the calls, of a message's parts, each in order.
  unfoldable pub ids_in : List (Part Value Float) → List ToolStep
  ids_in [] = []
  ids_in (tool_result id content images is_error ∷ parts) = answers id [] ∷ ids_in parts
  ids_in (_ ∷ parts) = ids_in parts

  unfoldable pub results_in : List (Part Value Float) → List ToolStep
  results_in [] = []
  results_in (tool_result id content images is_error ∷ parts) =
      answers id (sent_text content images is_error) ∷ results_in parts
  results_in (_ ∷ parts) = results_in parts

  unfoldable pub calls_in : List (Part Value Float) → List ToolStep
  calls_in [] = []
  calls_in (tool_use id name input ∷ parts) = calls id name (j.to_string input) ∷ calls_in parts
  calls_in (_ ∷ parts) = calls_in parts

  unfoldable pub asked : List (RequestMessage Value Float) → List ToolStep
  unfolding results_in calls_in
  asked [] = []
  asked (m ∷ messages) = (results_in m.parts ++ calls_in m.parts) ++ asked messages

  unfoldable pub asked_ids : List (RequestMessage Value Float) → List ToolStep
  unfolding ids_in calls_in
  asked_ids [] = []
  asked_ids (m ∷ messages) = (ids_in m.parts ++ calls_in m.parts) ++ asked_ids messages

  by_id-results_in : (parts : List (Part Value Float)) → map by_id (results_in parts) ≡ ids_in parts
  unfolding results_in ids_in
  by_id-results_in [] = refl
  by_id-results_in (text_of_part t ∷ parts) = by_id-results_in parts
  by_id-results_in (image i ∷ parts) = by_id-results_in parts
  by_id-results_in (tool_use id name input ∷ parts) = by_id-results_in parts
  by_id-results_in (tool_result id content images is_error ∷ parts) =
      ap (λ s. answers id [] ∷ s) (by_id-results_in parts)

  by_id-calls_in : (parts : List (Part Value Float)) → map by_id (calls_in parts) ≡ calls_in parts
  unfolding calls_in
  by_id-calls_in [] = refl
  by_id-calls_in (text_of_part t ∷ parts) = by_id-calls_in parts
  by_id-calls_in (image i ∷ parts) = by_id-calls_in parts
  by_id-calls_in (tool_use id name input ∷ parts) =
      ap (λ s. calls id name (j.to_string input) ∷ s) (by_id-calls_in parts)
  by_id-calls_in (tool_result id content images is_error ∷ parts) = by_id-calls_in parts

  pub by_id-asked :
      (messages : List (RequestMessage Value Float))
      → map by_id (asked messages) ≡ asked_ids messages
  unfolding asked asked_ids
  by_id-asked [] = refl
  by_id-asked (m ∷ messages) =
      by_id-append (results_in m.parts ++ calls_in m.parts) (asked messages)
      ∙ rw
          (
            by_id-append (results_in m.parts) (calls_in m.parts),
            by_id-results_in m.parts,
            by_id-calls_in m.parts,
            by_id-asked messages,
          )
          refl

  -- A system message has text only.
  abbrev pub is_text : Part Value Float → Bool
  is_text (text_of_part t) = true
  is_text _ = false

  unfoldable pub IsPlain : RequestMessage Value Float → Type 0
  IsPlain m = is_system m.role ≡ true → All (λ p. is_text p ≡ true) m.parts

  steps-tool_messages :
      (parts : List (Part Value Float)) → steps (tool_messages j Float parts) ≡ results_in parts
  unfolding steps tool_messages results_in
  steps-tool_messages [] = refl
  steps-tool_messages (text_of_part t ∷ parts) = steps-tool_messages parts
  steps-tool_messages (image i ∷ parts) = steps-tool_messages parts
  steps-tool_messages (tool_use id name input ∷ parts) = steps-tool_messages parts
  steps-tool_messages (tool_result id content images is_error ∷ parts) =
      ap (λ t. answers id t ∷ steps (tool_messages j Float parts))
        (result_text-sent_text content images is_error)
      ∙ ap (λ s. answers id (sent_text content images is_error) ∷ s) (steps-tool_messages parts)

  call_steps-calls_of :
      (parts : List (Part Value Float)) → call_steps (calls_of j Float parts) ≡ calls_in parts
  unfolding calls_of calls_in
  call_steps-calls_of [] = refl
  call_steps-calls_of (text_of_part t ∷ parts) = call_steps-calls_of parts
  call_steps-calls_of (image i ∷ parts) = call_steps-calls_of parts
  call_steps-calls_of (tool_use id name input ∷ parts) =
      ap (λ s. calls id name (j.to_string input) ∷ s) (call_steps-calls_of parts)
  call_steps-calls_of (tool_result id content images is_error ∷ parts) = call_steps-calls_of parts

  steps-encode_message :
      (m : RequestMessage Value Float)
      → steps (encode_message j Float m) ≡ results_in m.parts ++ calls_in m.parts
  unfolding encode_message
  steps-encode_message m =
      steps-append (tool_messages j Float m.parts) (
        own_message m.role (content_of (pieces_of j Float m.parts)) (calls_of j Float m.parts)
          (not (is_empty (tool_messages j Float m.parts))))
      ∙ rw
          (
            steps-tool_messages m.parts,
            steps-own_message m.role (content_of (pieces_of j Float m.parts))
                (calls_of j Float m.parts) (not (is_empty (tool_messages j Float m.parts))),
            call_steps-calls_of m.parts,
          )
          refl

  plain-calls_in :
      (parts : List (Part Value Float))
      → All (λ p. is_text p ≡ true) parts
      → results_in parts ++ calls_in parts ≡ []
  unfolding results_in calls_in
  plain-calls_in [] a = refl
  plain-calls_in (text_of_part t ∷ parts) a = plain-calls_in parts a.1
  plain-calls_in (image i ∷ parts) a = let no : ⊥ = cc in elim no [ ]
  plain-calls_in (tool_use id name input ∷ parts) a = let no : ⊥ = cc in elim no [ ]
  plain-calls_in (tool_result id content images is_error ∷ parts) a = let no : ⊥ = cc in elim no [ ]

  steps-placed :
      (p : SystemPlacement) (leading : Bool) (m : RequestMessage Value Float)
      → IsPlain m
      → steps (placed j Float p leading m) ≡ results_in m.parts ++ calls_in m.parts
  unfolding placed steps reminder IsPlain
  steps-placed keep leading m plain = steps-encode_message m
  steps-placed merge leading m plain = elim (Bool-cases (is_system m.role)) [
    | inl e ↦ simp e (sym (plain-calls_in m.parts (plain e)))
    | inr e ↦ simp e (steps-encode_message m)
  ]
  steps-placed as_user leading m plain = elim (Bool-cases (is_system m.role && not leading)) [
    | inl e ↦ simp e (sym (plain-calls_in m.parts (plain (ground (arith, e)))))
    | inr e ↦ simp e (steps-encode_message m)
  ]

  steps-place :
      (p : SystemPlacement) (messages : List (RequestMessage Value Float)) (out : List ChatMessage)
      → All IsPlain messages
      → steps (place j Float p messages out) ≡ steps out ++ asked messages
  unfolding place asked
  steps-place p [] out plain = sym (append-nil (steps out))
  steps-place p (m ∷ messages) out plain =
      steps-place p messages (out ++ placed j Float p (is_empty out) m) plain.1
      ∙ rw
          (
            steps-append out (placed j Float p (is_empty out) m),
            steps-placed p (is_empty out) m plain.0,
          )
          (append_assoc (steps out) (results_in m.parts ++ calls_in m.parts) (asked messages))

  -- When the system messages have text only, the backend is told each tool call with its arguments
  -- and each tool result, once and in order, whatever the placement: of each message the results,
  -- then the calls.
  pub steps-chat_messages :
      (p : SystemPlacement) (r : Request Value Float)
      → All IsPlain r.messages
      → steps (chat_messages j Float p r) ≡ asked r.messages
  unfolding chat_messages steps
  steps-chat_messages p r plain = elim (Bool-cases (is_empty (system_text j Float p r))) [
    | inl e ↦ simp (e, chat_messages) (steps-place p r.messages [] plain)
    | inr e ↦ simp (e, chat_messages) (steps-place p r.messages (chat system _ [] ∷ []) plain)
  ]
