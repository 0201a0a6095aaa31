-- ===== src/Anthropic/Decode/Calls.antt =====
-- The tool calls and results of a Messages request, and what src/anthropic/decode.rs makes of them.
use anthroxy.Prelude.{
  ℕ, zero, suc, ◌≡◌, refl, ap, ◌∙◌, Bool, true, false, Option, none, some, List, [], ◌∷◌,
  if◌then◌else◌, Text, ascii, text_eq, text_eq→eq, ok, >>=-eq-ok, map_ok-eq-ok, arith, Bool-cases,
  Option-cases, inl, inr,
}
use anthroxy.Json.{Json, value_get, value_field}
use anthroxy.Ir.Requests.{Part, text_of_part, image, tool_use, tool_result, Image, Tool}
use anthroxy.OpenAi.Requests.Calls.{ToolStep, calls, answers, ids_in, calls_in}
use anthroxy.Anthropic.Decode.Fields.{field_str, unwrap_or}
use anthroxy.Anthropic.Decode.Tools.{is_typed}
use anthroxy.Anthropic.Decode.Blocks.{
  decode_block, decode_typed, decode_image, decode_tool_use, decode_tool_result, Decoded,
  tool_result_content,
}

module _ (j : Json) where
  open j use {Value, Float, as_str, as_bool}

  -- A field of a block, as text.
  abbrev pub text_in : Text → Value → Text
  text_in key b = unwrap_or [] (value_field j as_str b key)

  -- The results and the calls among the blocks of a message, each in order.
  unfoldable pub block_result : Value → List ToolStep
  block_result b =
      if is_typed j (ascii "tool_result") b
      then answers (text_in (ascii "tool_use_id") b) [] ∷ []
      else []

  unfoldable pub block_call : Value → List ToolStep
  block_call b =
      if is_typed j (ascii "tool_use") b
      then calls (text_in (ascii "id") b) (text_in (ascii "name") b)
          (j.to_string (unwrap_or (j.object j.empty) (value_get j b (ascii "input"))))
        ∷ []
      else []

  abbrev pub option_list : Option (Part Value Float) → List (Part Value Float)
  option_list none = []
  option_list (some p) = p ∷ []

  abbrev Tells : Value → Option (Part Value Float) → Type 0
  Tells b o =
      (ids_in j Float (option_list o) ≡ block_result b)
      × (calls_in j Float (option_list o) ≡ block_call b)

  field_str_lem :
      (b : Value) (key t : Text) → field_str j b key ≡ ok t → value_field j as_str b key ≡ some t
  unfolding field_str
  field_str_lem b key t h = elim (Option-cases (value_field j as_str b key)) [
    | inl e ↦ ground (arith, e, h)
    | inr (u, e) ↦ ground (arith, e, h)
  ]

  is_typed_lem :
      (b : Value) (name t : Text)
      → value_field j as_str b (ascii "type") ≡ some t
      → is_typed j name b ≡ text_eq t name
  unfolding is_typed
  is_typed_lem b name t e = ground (arith, e)

  -- A block that tells no step.
  untyped-Tells :
      (b : Value) (t : Text) (o : Option (Part Value Float))
      → value_field j as_str b (ascii "type") ≡ some t
      → text_eq t (ascii "tool_use") ≡ false
      → text_eq t (ascii "tool_result") ≡ false
      → ids_in j Float (option_list o) ≡ []
      → calls_in j Float (option_list o) ≡ []
      → Tells b o
  unfolding block_result block_call
  untyped-Tells b t o e u r hr hc = (
    hr ∙ simp (is_typed_lem b (ascii "tool_result") t e, r) refl,
    hc ∙ simp (is_typed_lem b (ascii "tool_use") t e, u) refl,
  )

  used-Tells :
      (b : Value) (id name : Text)
      → value_field j as_str b (ascii "type") ≡ some (ascii "tool_use")
      → field_str j b (ascii "id") ≡ ok id
      → field_str j b (ascii "name") ≡ ok name
      → Tells b
          (some (tool_use id name (unwrap_or (j.object j.empty) (value_get j b (ascii "input")))))
  unfolding block_result block_call ids_in calls_in text_eq
  used-Tells b id name e id_e name_e = (
    simp (is_typed_lem b (ascii "tool_result") _ e) refl,
    simp
        (
          is_typed_lem b (ascii "tool_use") _ e,
          field_str_lem b _ id id_e,
          field_str_lem b _ name name_e,
        )
        refl,
  )

  answered-Tells :
      (b : Value) (id content : Text) (images : List Image) (is_error : Bool)
      → value_field j as_str b (ascii "type") ≡ some (ascii "tool_result")
      → field_str j b (ascii "tool_use_id") ≡ ok id
      → Tells b (some (tool_result id content images is_error))
  unfolding block_result block_call ids_in calls_in text_eq
  answered-Tells b id content images is_error e id_e = (
    simp (is_typed_lem b (ascii "tool_result") _ e, field_str_lem b _ id id_e) refl,
    simp (is_typed_lem b (ascii "tool_use") _ e) refl,
  )

  module _ (short : Text → Text) (tools : List (Tool Value Float)) (index : ℕ) where
    decode_tool_use-Tells :
        (b : Value) (p : Part Value Float)
        → value_field j as_str b (ascii "type") ≡ some (ascii "tool_use")
        → decode_tool_use j short tools index b ≡ ok p
        → Tells b (some p)
    unfolding decode_tool_use
    decode_tool_use-Tells b p e h =
        let (id, id_e, h1) = >>=-eq-ok (field_str j b (ascii "id")) _ h in
        let (name, name_e, h2) = >>=-eq-ok (field_str j b (ascii "name")) _ h1 in
        let made : tool_use id name (unwrap_or (j.object j.empty) (value_get j b (ascii "input")))
            ≡ p =
          cc in
        rw (← made) (used-Tells b id name e id_e name_e)

    decode_tool_result-Tells :
        (decode_inner : Value → List Text → Decoded j short tools index (Option (Part Value Float)))
        (b : Value) (spelled after : List Text) (p : Part Value Float)
        → value_field j as_str b (ascii "type") ≡ some (ascii "tool_result")
        → decode_tool_result j short tools index decode_inner b spelled ≡ ok (p, after)
        → Tells b (some p)
    unfolding decode_tool_result
    decode_tool_result-Tells decode_inner b spelled after p e h =
        let (c, c_e, h1) =
          >>=-eq-ok
            (tool_result_content j short tools index decode_inner (value_get j b (ascii "content"))
              spelled)
            _ h in
        let (id, id_e, h2) = >>=-eq-ok (field_str j b (ascii "tool_use_id")) _ h1 in
        let is_error = unwrap_or false (value_field j as_bool b (ascii "is_error")) in
        let made : tool_result id c.0.0 c.0.1 is_error ≡ p = cc in
        rw (← made) (answered-Tells b id c.0.0 c.0.1 is_error e id_e)

    -- A part that is no step.
    abbrev is_quiet : Option (Part Value Float) → Bool
    is_quiet none = true
    is_quiet (some (text_of_part t)) = true
    is_quiet (some (image i)) = true
    is_quiet (some (tool_use id name input)) = false
    is_quiet (some (tool_result id content images is_error)) = false

    quiet-steps :
        (o : Option (Part Value Float))
        → is_quiet o ≡ true
        → (ids_in j Float (option_list o) ≡ []) × (calls_in j Float (option_list o) ≡ [])
    unfolding ids_in calls_in
    quiet-steps none h = (refl, refl)
    quiet-steps (some (text_of_part t)) h = (refl, refl)
    quiet-steps (some (image i)) h = (refl, refl)
    quiet-steps (some (tool_use id name input)) h = cc
    quiet-steps (some (tool_result id content images is_error)) h = cc

    decode_image-quiet :
        (b : Value) (p : Part Value Float)
        → decode_image j short tools index b ≡ ok p
        → is_quiet (some p) ≡ true
    unfolding decode_image
    decode_image-quiet b p h = ground (arith, h)

    decode_typed-quiet :
        (decode_inner : Value → List Text → Decoded j short tools index (Option (Part Value Float)))
        (t : Text) (b : Value) (spelled after : List Text) (o : Option (Part Value Float))
        → text_eq t (ascii "tool_use") ≡ false
        → text_eq t (ascii "tool_result") ≡ false
        → decode_typed j short tools index decode_inner t b spelled ≡ ok (o, after)
        → is_quiet o ≡ true
    unfolding decode_typed
    decode_typed-quiet decode_inner t b spelled after o u r h = ground (arith, u, r, h)

    typed_use-Tells :
        (decode_inner : Value → List Text → Decoded j short tools index (Option (Part Value Float)))
        (b : Value) (spelled after : List Text) (o : Option (Part Value Float))
        → value_field j as_str b (ascii "type") ≡ some (ascii "tool_use")
        → decode_typed j short tools index decode_inner (ascii "tool_use") b spelled ≡ ok (o, after)
        → Tells b o
    unfolding decode_typed text_eq
    typed_use-Tells decode_inner b spelled after o e h =
        let (p, p_e, made) = map_ok-eq-ok _ (decode_tool_use j short tools index b) h in
        let same : some p ≡ o = cc in rw (← same) (decode_tool_use-Tells b p e p_e)

    typed_result-Tells :
        (decode_inner : Value → List Text → Decoded j short tools index (Option (Part Value Float)))
        (b : Value) (spelled after : List Text) (o : Option (Part Value Float))
        → value_field j as_str b (ascii "type") ≡ some (ascii "tool_result")
        → decode_typed j short tools index decode_inner (ascii "tool_result") b spelled
          ≡ ok (o, after)
        → Tells b o
    unfolding decode_typed text_eq
    typed_result-Tells decode_inner b spelled after o e h =
        let (d, d_e, made) =
          map_ok-eq-ok _ (decode_tool_result j short tools index decode_inner b spelled) h in
        let same : some d.0 ≡ o = cc in
        rw (← same) (decode_tool_result-Tells decode_inner b spelled d.1 d.0 e d_e)

    decode_typed-Tells :
        (decode_inner : Value → List Text → Decoded j short tools index (Option (Part Value Float)))
        (t : Text) (b : Value) (spelled after : List Text) (o : Option (Part Value Float))
        → value_field j as_str b (ascii "type") ≡ some t
        → decode_typed j short tools index decode_inner t b spelled ≡ ok (o, after)
        → Tells b o
    decode_typed-Tells decode_inner t b spelled after o e h =
        elim (Bool-cases (text_eq t (ascii "tool_use"))) [
          | inl use_e ↦
              let same : t ≡ ascii "tool_use" = text_eq→eq t _ use_e in
              typed_use-Tells decode_inner b spelled after o (e ∙ ap (λ u. some u) same)
                (rw (← same) h)
          | inr no_use ↦ elim (Bool-cases (text_eq t (ascii "tool_result"))) [
            | inl result_e ↦
                let same : t ≡ ascii "tool_result" = text_eq→eq t _ result_e in
                typed_result-Tells decode_inner b spelled after o (e ∙ ap (λ u. some u) same)
                  (rw (← same) h)
            | inr no_result ↦
                let quiet =
                  quiet-steps o
                    (decode_typed-quiet decode_inner t b spelled after o no_use no_result h) in
                untyped-Tells b t o e no_use no_result quiet.0 quiet.1
          ]
        ]

    pub decode_block-Tells :
        (fuel : ℕ) (b : Value) (spelled after : List Text) (o : Option (Part Value Float))
        → decode_block j short tools index fuel b spelled ≡ ok (o, after)
        → Tells b o
    unfolding decode_block
    decode_block-Tells zero b spelled after o h = cc
    decode_block-Tells (suc fuel) b spelled after o h =
        let (t, t_e, h1) = >>=-eq-ok (field_str j b (ascii "type")) _ h in
        decode_typed-Tells (decode_block j short tools index fuel) t b spelled after o
          (field_str_lem b _ t t_e) h1
