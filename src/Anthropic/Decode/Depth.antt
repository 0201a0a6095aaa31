-- ===== src/Anthropic/Decode/Depth.antt =====
-- The recursion of src/anthropic/decode.rs on blocks has fuel enough.
use anthroxy.Prelude.{
  ℕ, zero, suc, ◌<◌, ◌≡◌, ◌≢◌, refl, Bool, true, false, Option, none, some, List, [], ◌∷◌, All,
  All-map, join, Text, ascii, Result, ok, err, map_ok, ◌>>=◌, arith, Bool-cases, Option-cases,
  Result-cases, inl, inr,
}
use anthroxy.Json.{Json, IsLawful, value_get, field}
use anthroxy.Ir.Requests.{Tool, Part, RequestMessage}
use anthroxy.Anthropic.Decode.Fields.{
  DecodeError, too_deep, wrong_field, unknown_role, field_str, optional_array, optional, ok_or,
}
use anthroxy.Anthropic.Decode.Parts.{Gathered, role_of, separator}
use anthroxy.Anthropic.Decode.Blocks.{
  Decoded, decode_block, decode_typed, decode_image, decode_tool_use, decode_tool_result,
  document_text, tool_result_content, gather, gather_block, take_part, is_reference,
  gathered_content,
}
use anthroxy.Anthropic.Decode.Tools.{traverse, decode_tool, decode_tools}
use anthroxy.Anthropic.Decode.{
  decode_blocks, decode_content, check_parts, decode_message, decode_messages, decode_system,
  decode_tool_choice, choice_of, nonempty, decode_fields, decode_root, decode,
}

-- The fuel did not run out.
abbrev shallow {ℓ} : {A : Type ℓ} → Result DecodeError A → Bool
shallow (err too_deep) = false
shallow _ = true

module _ {ℓ κ} {A : Type ℓ} {B : Type κ} where
  shallow->>= :
      (m : Result DecodeError A) (f : A → Result DecodeError B)
      → shallow m ≡ true
      → ((a : A) → shallow (f a) ≡ true)
      → shallow (m >>= f) ≡ true
  shallow->>= (ok a) f h k = k a
  shallow->>= (err e) f h k = ground (arith, h)

  shallow-map_ok :
      (f : A → B) (m : Result DecodeError A) → shallow m ≡ true → shallow (map_ok f m) ≡ true
  shallow-map_ok f (ok a) h = refl
  shallow-map_ok f (err e) h = ground (arith, h)

module _ (j : Json) where
  open j use {Value, Float, as_str, as_array}

  shallow-field_str : (v : Value) (key : Text) → shallow (field_str j v key) ≡ true
  unfolding field_str
  shallow-field_str v key = ground arith

  shallow-optional_array : (o : j.Object) (key : Text) → shallow (optional_array j o key) ≡ true
  unfolding optional_array
  shallow-optional_array o key = ground arith

  shallow-optional :
      {A : Type 0} (read : Value → Option A) (o : j.Object) (key : Text)
      → shallow (optional j read o key) ≡ true
  unfolding optional
  shallow-optional read o key = ground arith

  module _ (short : Text → Text) (tools : List (Tool Value Float)) (index : ℕ) where
    shallow-document_text : (b : Value) → shallow (document_text j short tools index b) ≡ true
    unfolding document_text field_str
    shallow-document_text b = ground arith

    shallow-decode_image : (b : Value) → shallow (decode_image j short tools index b) ≡ true
    unfolding decode_image field_str
    shallow-decode_image b = ground arith

    shallow-decode_tool_use : (b : Value) → shallow (decode_tool_use j short tools index b) ≡ true
    unfolding decode_tool_use field_str
    shallow-decode_tool_use b = ground arith

    shallow-take_part :
        (g : Gathered Value Float) (p : Option (Part Value Float))
        → shallow (take_part j short tools index g p) ≡ true
    unfolding take_part
    shallow-take_part g p = ground arith

    module _
        (decode_inner : Value
          → List Text
          → Decoded j short tools index (Option (Part Value Float))) where
      abbrev IsShallow : Value → Type 0
      IsShallow b = (spelled : List Text) → shallow (decode_inner b spelled) ≡ true

      shallow-gather_block :
          (b : Value) (g : Gathered Value Float) (spelled : List Text)
          → IsShallow b
          → shallow (gather_block j short tools index decode_inner b g spelled) ≡ true
      unfolding gather_block
      shallow-gather_block b g spelled h = elim (Bool-cases (is_reference j short tools index b)) [
        | inl e ↦ simp e (
            shallow-map_ok _ (field_str j b (ascii "tool_name"))
              (shallow-field_str b (ascii "tool_name")))
        | inr e ↦ simp e (
            shallow->>= (decode_inner b spelled) _ (h spelled) (λ d.
              shallow-map_ok _ (take_part j short tools index g d.0) (shallow-take_part g d.0)))
      ]

      shallow-gather :
          (blocks : List Value) (g : Gathered Value Float) (spelled : List Text)
          → All IsShallow blocks
          → shallow (gather j short tools index decode_inner blocks g spelled) ≡ true
      unfolding gather
      shallow-gather [] g spelled h = refl
      shallow-gather (b ∷ blocks) g spelled h =
          shallow->>= (gather_block j short tools index decode_inner b g spelled) _
            (shallow-gather_block b g spelled h.0) (λ d. shallow-gather blocks d.0 d.1 h.1)

      shallow-tool_result_content :
          (content : Option Value) (spelled : List Text)
          → ((v : Value) (blocks : List Value)
              → content ≡ some v
              → as_array v ≡ some blocks
              → All IsShallow blocks)
          → shallow (tool_result_content j short tools index decode_inner content spelled) ≡ true
      unfolding tool_result_content
      shallow-tool_result_content none spelled h = refl
      shallow-tool_result_content (some v) spelled h = elim (Option-cases (as_array v)) [
        | inl e ↦ ground (arith, e)
        | inr (blocks, e) ↦ ground (
          arith,
          e,
          shallow-map_ok
              (λ (d : Gathered Value Float × List Text).
                gathered_content j short tools index d.0 d.1)
              _
              (shallow-gather blocks (record { texts = []; images = []; references = [] }) spelled
                (h v blocks refl e)),
        )
      ]

      shallow-decode_tool_result :
          (b : Value) (spelled : List Text)
          → ((v : Value) (blocks : List Value)
              → value_get j b (ascii "content") ≡ some v
              → as_array v ≡ some blocks
              → All IsShallow blocks)
          → shallow (decode_tool_result j short tools index decode_inner b spelled) ≡ true
      unfolding decode_tool_result
      shallow-decode_tool_result b spelled h =
          shallow->>=
            (tool_result_content j short tools index decode_inner (value_get j b (ascii "content"))
              spelled)
            _ (shallow-tool_result_content (value_get j b (ascii "content")) spelled h)
            (λ c.
              shallow->>= (field_str j b (ascii "tool_use_id")) _ (shallow-field_str b _)
                (λ id. refl))

      shallow-decode_typed :
          (t : Text) (b : Value) (spelled : List Text)
          → ((v : Value) (blocks : List Value)
              → value_get j b (ascii "content") ≡ some v
              → as_array v ≡ some blocks
              → All IsShallow blocks)
          → shallow (decode_typed j short tools index decode_inner t b spelled) ≡ true
      unfolding decode_typed
      shallow-decode_typed t b spelled h = ground (
        arith,
        shallow-decode_tool_result b spelled h,
        shallow-field_str b (ascii "text"),
        shallow-decode_image b,
        shallow-decode_tool_use b,
        shallow-document_text b,
      )

  module _ (lawful : IsLawful j) (short : Text → Text) (tools : List (Tool Value Float))
      (index : ℕ) where
    shallow-decode_block :
        (fuel : ℕ) (b : Value) (spelled : List Text)
        → j.depth b < fuel
        → shallow (decode_block j short tools index fuel b spelled) ≡ true
    unfolding decode_block
    shallow-decode_block zero b spelled h = elim h [ ]
    shallow-decode_block (suc fuel) b spelled h =
        shallow->>= (field_str j b (ascii "type")) _ (shallow-field_str b (ascii "type")) (λ t.
          shallow-decode_typed short tools index (decode_block j short tools index fuel) t b spelled
            (λ v blocks e f.
              All-map {Q = IsShallow short tools index (decode_block j short tools index fuel)}
                (λ (c : Value) (less : j.depth c < j.depth b) (s : List Text).
                  shallow-decode_block fuel c s (omega (arith, less, h)))
                blocks (lawful.depth-items b v (ascii "content") blocks e f)))

    shallow-decode_blocks :
        (blocks : List Value) (spelled : List Text)
        → shallow (decode_blocks j short tools index blocks spelled) ≡ true
    unfolding decode_blocks
    shallow-decode_blocks [] spelled = refl
    shallow-decode_blocks (b ∷ blocks) spelled =
        shallow->>= (decode_block j short tools index (suc (j.depth b)) b spelled) _
          (shallow-decode_block (suc (j.depth b)) b spelled (omega arith))
          (λ d.
            shallow->>= (decode_blocks j short tools index blocks d.1) _
              (shallow-decode_blocks blocks d.1) (λ rest. refl))

    shallow-decode_content :
        (content : Option Value) (spelled : List Text)
        → shallow (decode_content j short tools index content spelled) ≡ true
    unfolding decode_content
    shallow-decode_content none spelled = refl
    shallow-decode_content (some v) spelled = elim (Option-cases (as_array v)) [
      | inl e ↦ ground (arith, e)
      | inr (blocks, e) ↦ ground (arith, e, shallow-decode_blocks blocks spelled)
    ]

    shallow-decode_message :
        (m : Value) (spelled : List Text)
        → shallow (decode_message j short tools index m spelled) ≡ true
    unfolding decode_message decode_content check_parts
    shallow-decode_message m spelled =
        shallow->>= (field_str j m (ascii "role")) _ (shallow-field_str m (ascii "role")) (λ name.
          shallow->>= (ok_or (unknown_role index (short name)) (role_of name)) _ (ground arith)
            (λ role.
              shallow->>=
                (decode_content j short tools index (value_get j m (ascii "content")) spelled) _
                (shallow-decode_content (value_get j m (ascii "content")) spelled)
                (λ d. ground arith)))

  module _ (lawful : IsLawful j) (short : Text → Text) where
    shallow-decode_messages :
        (tools : List (Tool Value Float)) (index : ℕ) (raw : List Value) (spelled : List Text)
        → shallow (decode_messages j short tools index raw spelled) ≡ true
    unfolding decode_messages
    shallow-decode_messages tools index [] spelled = refl
    shallow-decode_messages tools index (m ∷ raw) spelled =
        shallow->>= (decode_message j short tools index m spelled) _
          (shallow-decode_message lawful short tools index m spelled)
          (λ d.
            shallow->>= (decode_messages j short tools (suc index) raw d.1) _
              (shallow-decode_messages tools (suc index) raw d.1) (λ rest. refl))

    shallow-traverse {ℓ} :
        {A : Type ℓ} {B : Type 0} (f : A → Result DecodeError B)
        → ((a : A) → shallow (f a) ≡ true)
        → (as' : List A) → shallow (traverse f as') ≡ true
    unfolding traverse
    shallow-traverse f h [] = refl
    shallow-traverse f h (a ∷ more) =
        shallow->>= (f a) _ (h a)
          (λ b. shallow-map_ok _ (traverse f more) (shallow-traverse f h more))

    shallow-decode_system : (root : j.Object) → shallow (decode_system j short root) ≡ true
    unfolding decode_system
    shallow-decode_system root =
        let read : (b : Value) → Result DecodeError Text = λ b. field_str j b (ascii "text") in
        let listed =
          shallow->>= (optional_array j root (ascii "system"))
            (λ items. map_ok (λ texts. nonempty (join separator texts)) (traverse read items))
            (shallow-optional_array root (ascii "system"))
            (λ items.
              shallow-map_ok (λ texts. nonempty (join separator texts)) (traverse read items)
                (shallow-traverse read (λ b. shallow-field_str b (ascii "text")) items)) in
        ground (arith, listed)

    shallow-decode_tool_choice :
        (choice : Option Value) → shallow (decode_tool_choice j short choice) ≡ true
    unfolding decode_tool_choice
    shallow-decode_tool_choice none = refl
    shallow-decode_tool_choice (some c) =
        ground (arith, shallow-field_str c (ascii "type"), shallow-field_str c (ascii "name"))

    shallow-decode_tool : (t : Value) → shallow (decode_tool j short t) ≡ true
    unfolding decode_tool
    shallow-decode_tool t = ground (arith, shallow-field_str t (ascii "name"))

    shallow-decode_tools :
        (raw_tools raw_messages : List Value)
        → shallow (decode_tools j short raw_tools raw_messages) ≡ true
    unfolding decode_tools
    shallow-decode_tools raw_tools raw_messages =
        shallow-traverse (decode_tool j short) shallow-decode_tool _

    shallow-decode_fields :
        (root : j.Object) (model : Text) (tools : List (Tool Value Float))
        (messages : List (RequestMessage Value Float))
        → shallow (decode_fields j short root model tools messages) ≡ true
    unfolding decode_fields
    shallow-decode_fields root model tools messages =
        shallow->>= (decode_system j short root) _ (shallow-decode_system root) λ _.
          shallow->>= (decode_tool_choice j short (choice_of j short root)) _
            (shallow-decode_tool_choice _)
            λ _.
              shallow->>= (optional_array j root (ascii "stop_sequences")) _
                (shallow-optional_array root _)
                λ stops.
                  shallow->>= (traverse _ stops) _ (shallow-traverse _ (λ s. ground arith) stops)
                    λ _.
                      shallow->>= (optional j j.as_u64 root (ascii "max_tokens")) _
                        (shallow-optional j.as_u64 root _)
                        λ _.
                          shallow->>= (optional j j.as_f64 root (ascii "temperature")) _
                            (shallow-optional j.as_f64 root _)
                            λ _.
                              shallow->>= (optional j j.as_f64 root (ascii "top_p")) _
                                (shallow-optional j.as_f64 root _)
                                λ _.
                                  shallow->>= (optional j j.as_bool root (ascii "stream")) _
                                    (shallow-optional j.as_bool root _) λ _. refl

    shallow-decode_root : (root : j.Object) → shallow (decode_root j short root) ≡ true
    unfolding decode_root
    shallow-decode_root root =
        shallow->>= (ok_or (wrong_field (ascii "model")) (field j as_str root (ascii "model"))) _
          (ground arith)
          λ model.
            shallow->>=
              (ok_or (wrong_field (ascii "messages")) (field j as_array root (ascii "messages"))) _
              (ground arith)
              λ raw.
                shallow->>= (optional_array j root (ascii "tools")) _
                  (shallow-optional_array root _)
                  λ raw_tools.
                    shallow->>= (decode_tools j short raw_tools raw) _
                      (shallow-decode_tools raw_tools raw)
                      λ tools.
                        shallow->>= (decode_messages j short tools 0 raw []) _
                          (shallow-decode_messages tools 0 raw [])
                          λ messages. shallow-decode_fields root model tools messages

    -- When the JSON crate is lawful, decoding any body gives a request or one of the errors of the
    -- program: the fuel of the recursion on nested blocks never runs out.
    pub decode-ne-too_deep : (body : Text) → decode j short body ≢ err too_deep
    unfolding decode
    decode-ne-too_deep body h = elim (Result-cases (j.from_slice body)) [
      | inr (why, e) ↦ ground (arith, e, h)
      | inl (v, e) ↦ elim (Option-cases (j.as_object v)) [
        | inl none_e ↦ ground (arith, e, none_e, h)
        | inr (root, some_e) ↦ ground (arith, e, some_e, h, shallow-decode_root root)
      ]
    ]
