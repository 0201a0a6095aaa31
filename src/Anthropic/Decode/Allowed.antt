-- ===== src/Anthropic/Decode/Allowed.antt =====
-- What a decoded message carries, after the checks of src/anthropic/decode.rs.
use anthroxy.Prelude.{
  ℕ, ◌≡◌, refl, sym, ap, ◌∙◌, true, none, List, [], ◌∷◌, Text, ascii, All, ok, >>=-eq-ok, arith,
  Option-cases, inl, inr,
}
use anthroxy.Json.{Json, value_get}
use anthroxy.Ir.Requests.{
  Role, user, assistant, system, Part, text_of_part, image, tool_use, tool_result, RequestMessage,
  Tool,
}
use anthroxy.OpenAi.Requests.{is_system}
use anthroxy.OpenAi.Requests.Calls.{is_text, IsPlain}
use anthroxy.Anthropic.Decode.Fields.{field_str, ok_or, unknown_role}
use anthroxy.Anthropic.Decode.Parts.{find_wrong, role_of}
use anthroxy.Anthropic.Decode.{check_parts, decode_content, decode_message}

is_system-eq : (role : Role) → is_system role ≡ true → role ≡ system
is_system-eq user h = cc
is_system-eq assistant h = cc
is_system-eq system h = refl

module _ (j : Json) (short : Text → Text) where
  open j use {Value, Float}

  find_wrong-All :
      (parts : List (Part Value Float))
      → find_wrong Value Float system parts ≡ none
      → All (λ p. is_text j Float p ≡ true) parts
  unfolding find_wrong
  find_wrong-All [] h = tt
  find_wrong-All (text_of_part t ∷ parts) h = (refl, find_wrong-All parts h)
  find_wrong-All (image i ∷ parts) h = cc
  find_wrong-All (tool_use id name input ∷ parts) h = cc
  find_wrong-All (tool_result id content images is_error ∷ parts) h = cc

  module _ (tools : List (Tool Value Float)) where
    check_parts_lem :
        (index : ℕ) (name : Text) (role : Role) (parts kept : List (Part Value Float))
        → check_parts j short tools index name role parts ≡ ok kept
        → (find_wrong Value Float role parts ≡ none) × (parts ≡ kept)
    unfolding check_parts
    check_parts_lem index name role parts kept h =
        elim (Option-cases (find_wrong Value Float role parts)) [
          | inl e ↦ (e, ground (arith, e, h))
          | inr (p, e) ↦ ground (arith, e, h)
        ]

    -- What stands behind a decoded message.
    pub record Decoding (index : ℕ) (m : Value) (spelled after : List Text)
        (r : RequestMessage Value Float) : Type 0 where
      pub content :
          decode_content j short tools index (value_get j m (ascii "content")) spelled
          ≡ ok (r.parts, after)
      pub fits : find_wrong Value Float r.role r.parts ≡ none

    pub decode_message-Decoding :
        (index : ℕ) (m : Value) (spelled after : List Text) (r : RequestMessage Value Float)
        → decode_message j short tools index m spelled ≡ ok (r, after)
        → Decoding index m spelled after r
    unfolding decode_message
    decode_message-Decoding index m spelled after r h =
        let (name, name_e, h1) = >>=-eq-ok (field_str j m (ascii "role")) _ h in
        let (role, role_e, h2) =
          >>=-eq-ok (ok_or (unknown_role index (short name)) (role_of name)) _ h1 in
        let (d, d_e, h3) =
          >>=-eq-ok (decode_content j short tools index (value_get j m (ascii "content")) spelled) _
            h2 in
        let (parts, parts_e, h4) = >>=-eq-ok (check_parts j short tools index name role d.0) _ h3 in
        let (fit, same) = check_parts_lem index name role d.0 parts parts_e in
        record { content = ground (arith, d_e, same, h4); fits = ground (arith, fit, same, h4) }

    pub decode_message-IsPlain :
        (index : ℕ) (m : Value) (spelled after : List Text) (r : RequestMessage Value Float)
        → decode_message j short tools index m spelled ≡ ok (r, after)
        → IsPlain j Float r
    unfolding IsPlain
    decode_message-IsPlain index m spelled after r h s =
        let is : r.role ≡ system = is_system-eq r.role s in
        find_wrong-All r.parts (
          ap (λ role. find_wrong Value Float role r.parts) (sym is)
          ∙ (decode_message-Decoding index m spelled after r h).fits)
