-- ===== src/Anthropic/Decode/Blocks.antt =====
-- The messages and blocks of src/anthropic/decode.rs. What is threaded through is `spelled`, the tools
-- whose definitions stand in a text before; `short` is `text::short`.
use anthroxy.Prelude.{
  ℕ, zero, suc, Bool, false, Option, none, some, List, [], ◌∷◌, ◌++◌, if◌then◌else◌, is_empty, Text,
  ascii, text_eq, join, decimal, Result, ok, err, map_ok, ◌>>=◌,
}
use anthroxy.Json.{Json, value_get, value_field}
use anthroxy.Ir.Requests.{Image, Part, text_of_part, image, tool_use, tool_result, Tool}
use anthroxy.Anthropic.Decode.Fields.{
  DecodeError, wrong_field, unsupported_block, too_deep, ok_or, unwrap_or, field_str,
}
use anthroxy.Anthropic.Decode.Parts.{separator, base64_bytes, Gathered}
use anthroxy.Anthropic.Decode.References.{functions_block}

module _ (j : Json) (short : Text → Text) (tools : List (Tool j.Value j.Float)) (index : ℕ) where
  open j use {Value, as_array, as_str, as_bool, is_null}

  -- A result with what is spelled after it.
  abbrev pub Decoded : Type 0 → Type 0
  Decoded A = Result DecodeError (A × List Text)

  unfoldable pub document_text : Value → Result DecodeError Text
  unfolding base64_bytes decimal
  document_text block = do
    source ← ok_or (wrong_field (ascii "source")) (value_get j block (ascii "source"))
    of_type ← field_str j source (ascii "type")
    let media_type =
        unwrap_or (ascii "unknown type") (value_field j as_str source (ascii "media_type"))
    let bytes = base64_bytes (unwrap_or [] (value_field j as_str source (ascii "data")))
    let title : Text = elim (value_field j as_str block (ascii "title")) [
      | none ↦ []
      | some t ↦ ascii " \"" ++ (t ++ ascii "\"")
    ]
    if text_eq of_type (ascii "text")
        then field_str j source (ascii "data")
        else ok (
            ascii "[document"
            ++ (title
                ++ (ascii " ("
                    ++ (media_type
                        ++ (ascii ", "
                            ++ (decimal bytes
                                ++ ascii
                                    " bytes) omitted: this backend cannot receive documents]"))))))

  unfoldable pub take_part :
      Gathered Value j.Float
      → Option (Part Value j.Float)
      → Result DecodeError (Gathered Value j.Float)
  take_part g none = ok g
  take_part g (some (text_of_part t)) = ok (record g { texts = g.texts ++ t ∷ [] })
  take_part g (some (image i)) = ok (record g { images = g.images ++ i ∷ [] })
  take_part g (some (tool_use id name input)) = err (unsupported_block index (ascii "tool_use"))
  take_part g (some (tool_result id content images is_error)) =
      err (unsupported_block index (ascii "tool_result"))

  unfoldable pub is_reference : Value → Bool
  is_reference block = elim (value_field j as_str block (ascii "type")) [
    | none ↦ false
    | some t ↦ text_eq t (ascii "tool_reference")
  ]

  -- One turn of the loop over a tool result's blocks; `decode` is `decode_block`.
  unfoldable pub gather_block :
      (Value → List Text → Decoded (Option (Part Value j.Float)))
      → Value
      → Gathered Value j.Float
      → List Text
      → Decoded (Gathered Value j.Float)
  unfolding is_reference take_part
  gather_block decode block g spelled =
      if is_reference block
      then map_ok (λ name. (record g { references = g.references ++ name ∷ [] }, spelled))
          (field_str j block (ascii "tool_name"))
      else decode block spelled >>= λ d. map_ok (λ g'. (g', d.1)) (take_part g d.0)

  unfoldable pub gather :
      (Value → List Text → Decoded (Option (Part Value j.Float)))
      → List Value
      → Gathered Value j.Float
      → List Text
      → Decoded (Gathered Value j.Float)
  unfolding gather_block
  gather decode [] g spelled = ok (g, spelled)
  gather decode (b ∷ blocks) g spelled =
      gather_block decode b g spelled >>= λ d. gather decode blocks d.0 d.1

  -- The text and the images of what was gathered.
  unfoldable pub gathered_content :
      Gathered Value j.Float → List Text → (Text × List Image) × List Text
  unfolding functions_block join
  gathered_content g spelled =
      let block = functions_block j tools spelled g.references in
      if is_empty g.references
      then ((join separator g.texts, g.images), spelled)
      else ((join separator (g.texts ++ block.0 ∷ []), g.images), block.1)

  unfoldable pub tool_result_content :
      (Value → List Text → Decoded (Option (Part Value j.Float)))
      → Option Value
      → List Text
      → Decoded (Text × List Image)
  unfolding gather gathered_content
  tool_result_content decode none spelled = ok (([], []), spelled)
  tool_result_content decode (some v) spelled =
      if is_null v then ok (([], []), spelled) else elim (as_str v) [
        | some t ↦ ok ((t, []), spelled)
        | none ↦ elim (as_array v) [
          | none ↦ err (wrong_field (ascii "content"))
          | some blocks ↦
              map_ok (λ d. gathered_content d.0 d.1)
                (gather decode blocks (record { texts = []; images = []; references = [] }) spelled)
        ]
      ]

  unfoldable pub decode_image : Value → Result DecodeError (Part Value j.Float)
  decode_image block = do
    source ← ok_or (wrong_field (ascii "source")) (value_get j block (ascii "source"))
    of_type ← field_str j source (ascii "type")
    if text_eq of_type (ascii "base64")
        then (field_str j source (ascii "media_type") >>= λ media_type.
            map_ok (λ d. image (record { media_type = media_type; data_of = d }))
              (field_str j source (ascii "data")))
        else err (unsupported_block index (ascii "image with a non-base64 source"))

  unfoldable pub decode_tool_use : Value → Result DecodeError (Part Value j.Float)
  decode_tool_use block = do
    id ← field_str j block (ascii "id")
    name ← field_str j block (ascii "name")
    ok (tool_use id name (unwrap_or (j.object j.empty) (value_get j block (ascii "input"))))

  unfoldable pub decode_tool_result :
      (Value → List Text → Decoded (Option (Part Value j.Float)))
      → Value
      → List Text
      → Decoded (Part Value j.Float)
  unfolding tool_result_content
  decode_tool_result decode block spelled = do
    c ← tool_result_content decode (value_get j block (ascii "content")) spelled
    id ← field_str j block (ascii "tool_use_id")
    let is_error = unwrap_or false (value_field j as_bool block (ascii "is_error"))
    ok (tool_result id c.0.0 c.0.1 is_error, c.1)

  -- `match` on the type of a block; no part is a block dropped on purpose.
  unfoldable pub decode_typed :
      (Value → List Text → Decoded (Option (Part Value j.Float)))
      → Text
      → Value
      → List Text
      → Decoded (Option (Part Value j.Float))
  unfolding decode_image decode_tool_use decode_tool_result document_text
  decode_typed decode of_type block spelled =
      let plain = map_ok (λ p. (some p, spelled)) in
      if text_eq of_type (ascii "text")
      then plain (map_ok (λ t. text_of_part t) (field_str j block (ascii "text")))
      else if text_eq of_type (ascii "image")
      then plain (decode_image block)
      else if text_eq of_type (ascii "tool_use")
      then plain (decode_tool_use block)
      else if text_eq of_type (ascii "tool_result")
      then map_ok (λ d. (some d.0, d.1)) (decode_tool_result decode block spelled)
      else if text_eq of_type (ascii "document")
      then plain (map_ok (λ t. text_of_part t) (document_text block))
      else if text_eq of_type (ascii "thinking")
      then ok (none, spelled)
      else if text_eq of_type (ascii "redacted_thinking")
      then ok (none, spelled)
      else err (unsupported_block index (short of_type))

  unfoldable pub decode_block : ℕ → Value → List Text → Decoded (Option (Part Value j.Float))
  unfolding decode_typed
  decode_block zero block spelled = err too_deep
  decode_block (suc fuel) block spelled = field_str j block (ascii "type") >>= λ of_type.
      decode_typed (decode_block fuel) of_type block spelled
