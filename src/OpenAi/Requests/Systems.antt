-- ===== src/OpenAi/Requests/Systems.antt =====
-- Where system messages stand after `encode` of src/openai/request.rs.
use anthroxy.Prelude.{
  ◌≡◌, ◌≢◌, refl, ap, ◌∙◌, Bool, true, false, ◌&&◌, not, Option, none, some, List, [], ◌∷◌, ◌++◌,
  is_empty, all, drop, All, arith, Bool-cases, inl, inr,
}
use anthroxy.Json.{Json}
use anthroxy.Ir.Requests.{
  Role, system, Part, text_of_part, image, tool_use, tool_result, RequestMessage, Request,
}
use anthroxy.OpenAi.Requests.{
  SystemPlacement, keep, merge, as_user, ChatToolCall, Content, ChatMessage, chat, tool_message,
  content_of, pieces_of, calls_of, tool_messages, own_message, encode_message, is_system, placed,
  place, reminder, chat_messages, system_text,
}
use anthroxy.OpenAi.Requests.Calls.{is_text, IsPlain}

abbrev pub not_system : ChatMessage → Bool
not_system (chat role content tools) = not (is_system role)
not_system (tool_message id content) = true

-- No message but the first is a system message.
unfoldable pub only_first : List ChatMessage → Bool
only_first ms = all not_system (drop 1 ms)

all-append :
    (xs ys : List ChatMessage) → all not_system (xs ++ ys) ≡ all not_system xs && all not_system ys
all-append [] ys = refl
all-append (x ∷ xs) ys = ground (arith, all-append xs ys)

all-drop : (ms : List ChatMessage) → all not_system ms ≡ true → all not_system (drop 1 ms) ≡ true
all-drop [] a = a
all-drop (m ∷ ms) a = ground (arith, a)

all-own_message :
    (role : Role) (content : Option Content) (tools : List ChatToolCall) (emitted : Bool)
    → is_system role ≡ false
    → all not_system (own_message role content tools emitted) ≡ true
unfolding own_message
all-own_message role (some content) tools emitted e = ground (arith, e)
all-own_message role none [] true e = refl
all-own_message role none [] false e = ground (arith, e)
all-own_message role none (c ∷ tools) emitted e = ground (arith, e)

-- A message alone.
drop-own_message :
    (role : Role) (content : Option Content) (tools : List ChatToolCall) (emitted : Bool)
    → drop 1 (own_message role content tools emitted) ≡ []
unfolding own_message
drop-own_message role (some content) tools emitted = refl
drop-own_message role none [] true = refl
drop-own_message role none [] false = refl
drop-own_message role none (c ∷ tools) emitted = refl

module _ (j : Json) (Float : Type 0) where
  open j use {Value}

  all-tool_messages :
      (parts : List (Part Value Float)) → all not_system (tool_messages j Float parts) ≡ true
  unfolding tool_messages
  all-tool_messages [] = refl
  all-tool_messages (text_of_part t ∷ parts) = all-tool_messages parts
  all-tool_messages (image i ∷ parts) = all-tool_messages parts
  all-tool_messages (tool_use id name input ∷ parts) = all-tool_messages parts
  all-tool_messages (tool_result id content images is_error ∷ parts) = all-tool_messages parts

  tool_messages-plain :
      (parts : List (Part Value Float))
      → All (λ p. is_text j Float p ≡ true) parts
      → tool_messages j Float parts ≡ []
  unfolding tool_messages
  tool_messages-plain [] a = refl
  tool_messages-plain (text_of_part t ∷ parts) a = tool_messages-plain parts a.1
  tool_messages-plain (image i ∷ parts) a = let no : ⊥ = cc in elim no [ ]
  tool_messages-plain (tool_use id name input ∷ parts) a = let no : ⊥ = cc in elim no [ ]
  tool_messages-plain (tool_result id content images is_error ∷ parts) a =
      let no : ⊥ = cc in elim no [ ]

  all-encode_message :
      (m : RequestMessage Value Float)
      → is_system m.role ≡ false
      → all not_system (encode_message j Float m) ≡ true
  unfolding encode_message
  all-encode_message m e =
      all-append (tool_messages j Float m.parts) (
        own_message m.role (content_of (pieces_of j Float m.parts)) (calls_of j Float m.parts)
          (not (is_empty (tool_messages j Float m.parts))))
      ∙ ground (
        arith,
        all-tool_messages m.parts,
        all-own_message m.role (content_of (pieces_of j Float m.parts)) (calls_of j Float m.parts)
            (not (is_empty (tool_messages j Float m.parts))) e,
      )

  only_first-encode_message :
      (m : RequestMessage Value Float)
      → IsPlain j Float m
      → all not_system (drop 1 (encode_message j Float m)) ≡ true
  unfolding encode_message IsPlain
  only_first-encode_message m plain = elim (Bool-cases (is_system m.role)) [
    | inr e ↦ all-drop (encode_message j Float m) (all-encode_message m e)
    | inl e ↦
        let content = content_of (pieces_of j Float m.parts) in
        let tools = calls_of j Float m.parts in
        ap (λ ms. all not_system ms)
          (ap (λ ts. drop 1 (ts ++ own_message m.role content tools (not (is_empty ts))))
              (tool_messages-plain m.parts (plain e))
            ∙ drop-own_message m.role content tools false)
  ]

  -- What is placed behind another message has no system message.
  all-placed :
      (p : SystemPlacement) (m : RequestMessage Value Float)
      → p ≢ keep
      → all not_system (placed j Float p false m) ≡ true
  unfolding placed reminder
  all-placed keep m other = let no : ⊥ = other refl in elim no [ ]
  all-placed merge m other = elim (Bool-cases (is_system m.role)) [
    | inl e ↦ simp e refl
    | inr e ↦ simp e (all-encode_message m e)
  ]
  all-placed as_user m other = elim (Bool-cases (is_system m.role)) [
    | inl e ↦ simp e refl
    | inr e ↦ simp e (all-encode_message m e)
  ]

  only_first-placed :
      (p : SystemPlacement) (m : RequestMessage Value Float)
      → IsPlain j Float m
      → p ≢ keep
      → all not_system (drop 1 (placed j Float p true m)) ≡ true
  unfolding placed
  only_first-placed keep m plain other = let no : ⊥ = other refl in elim no [ ]
  only_first-placed merge m plain other = elim (Bool-cases (is_system m.role)) [
    | inl e ↦ simp e refl
    | inr e ↦ simp e (only_first-encode_message m plain)
  ]
  only_first-placed as_user m plain other = elim (Bool-cases (is_system m.role)) [
    | inl e ↦ simp e (only_first-encode_message m plain)
    | inr e ↦ simp e (only_first-encode_message m plain)
  ]

  only_first-append :
      (p : SystemPlacement) (m : RequestMessage Value Float) (out : List ChatMessage)
      → IsPlain j Float m
      → p ≢ keep
      → only_first out ≡ true
      → only_first (out ++ placed j Float p (is_empty out) m) ≡ true
  unfolding only_first
  only_first-append p m [] plain other h = only_first-placed p m plain other
  only_first-append p m (x ∷ out) plain other h =
      all-append out (placed j Float p false m) ∙ ground (arith, h, all-placed p m other)

  only_first-place :
      (p : SystemPlacement) (messages : List (RequestMessage Value Float)) (out : List ChatMessage)
      → All (IsPlain j Float) messages
      → p ≢ keep
      → only_first out ≡ true
      → only_first (place j Float p messages out) ≡ true
  unfolding place
  only_first-place p [] out plain other h = h
  only_first-place p (m ∷ messages) out plain other h =
      only_first-place p messages (out ++ placed j Float p (is_empty out) m) plain.1 other
        (only_first-append p m out plain.0 other h)

  -- With the placements `Merge` and `User`, when the system messages have text only, no message of the
  -- body but the first is a system message.
  pub only_first-chat_messages :
      (p : SystemPlacement) (r : Request Value Float)
      → All (IsPlain j Float) r.messages
      → p ≢ keep
      → only_first (chat_messages j Float p r) ≡ true
  unfolding chat_messages only_first
  only_first-chat_messages p r plain other =
      elim (Bool-cases (is_empty (system_text j Float p r))) [
        | inl e ↦ simp (e, chat_messages) (only_first-place p r.messages [] plain other refl)
        | inr e ↦
            simp (e, chat_messages)
              (only_first-place p r.messages (chat system _ [] ∷ []) plain other refl)
      ]
