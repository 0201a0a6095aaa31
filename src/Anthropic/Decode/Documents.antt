-- ===== src/Anthropic/Decode/Documents.antt =====
-- A whole Messages request: what it says of tools, what src/anthropic/decode.rs makes of it, and what a
-- backend is told after src/openai/request.rs.
use anthroxy.Prelude.{
  ℕ, suc, ◌≡◌, ◌≢◌, refl, ap, ◌∙◌, true, Option, none, some, List, [], ◌∷◌, ◌++◌, map, Text, ascii,
  All, ok, err, Result, >>=-eq-ok, arith, Option-cases, Result-cases, inl, inr,
}
use anthroxy.Json.{Json, value_get, field}
use anthroxy.Ir.Requests.{Part, RequestMessage, Tool, Request}
use anthroxy.OpenAi.Requests.{SystemPlacement, keep, chat_messages}
use anthroxy.OpenAi.Requests.Calls.{
  ToolStep, by_id, by_id-asked, asked, ids_in, calls_in, asked_ids, steps, IsPlain,
  steps-chat_messages,
}
use anthroxy.OpenAi.Requests.Systems.{only_first, only_first-chat_messages}
use anthroxy.Anthropic.Decode.Fields.{
  DecodeError, wrong_field, ok_or, unwrap_or, optional, optional_array, ok_or_lem,
}
use anthroxy.Anthropic.Decode.Blocks.{decode_block}
use anthroxy.Anthropic.Decode.Calls.{block_result, block_call, option_list, decode_block-Tells}
use anthroxy.Anthropic.Decode.Allowed.{decode_message-Decoding, decode_message-IsPlain}
use anthroxy.Anthropic.Decode.{
  decode_blocks, decode_content, decode_message, decode_messages, decode_system, decode_tool_choice,
  choice_of, decode_fields, decode_root, decode,
}
use anthroxy.Anthropic.Decode.Tools.{traverse, decode_tools}

module _ (j : Json) where
  open j use {Value, Float, as_str, as_array}

  -- The results and the calls of a message's blocks.
  unfoldable pub block_results : List Value → List ToolStep
  unfolding block_result
  block_results [] = []
  block_results (b ∷ blocks) = block_result j b ++ block_results blocks

  unfoldable pub block_calls : List Value → List ToolStep
  unfolding block_call
  block_calls [] = []
  block_calls (b ∷ blocks) = block_call j b ++ block_calls blocks

  -- A content that is a text has no blocks.
  unfoldable pub blocks_of : Option Value → List Value
  blocks_of none = []
  blocks_of (some v) = elim (as_str v) [ some t ↦ [] | none ↦ unwrap_or [] (as_array v) ]

  unfoldable pub message_steps : List Value → List ToolStep
  unfolding block_results block_calls blocks_of
  message_steps [] = []
  message_steps (m ∷ messages) =
      let blocks = blocks_of (value_get j m (ascii "content")) in
      (block_results blocks ++ block_calls blocks) ++ message_steps messages

  -- What a body says of tools: of each message the results, then the calls.
  unfoldable pub document_steps : Text → List ToolStep
  unfolding message_steps
  document_steps body = elim (j.from_slice body) [
    | err why ↦ []
    | ok v ↦ elim (j.as_object v) [
      | none ↦ []
      | some root ↦ message_steps (unwrap_or [] (field j as_array root (ascii "messages")))
    ]
  ]

  document_steps_lem :
      (body : Text) (v : Value) (root : j.Object)
      → j.from_slice body ≡ ok v
      → j.as_object v ≡ some root
      → document_steps body
        ≡ message_steps (unwrap_or [] (field j as_array root (ascii "messages")))
  unfolding document_steps
  document_steps_lem body v root e f = ground (arith, e, f)

  blocks_of-text : (v : Value) (t : Text) → as_str v ≡ some t → blocks_of (some v) ≡ []
  unfolding blocks_of
  blocks_of-text v t e = ground (arith, e)

  blocks_of-array :
      (v : Value) (blocks : List Value)
      → as_str v ≡ none
      → as_array v ≡ some blocks
      → blocks_of (some v) ≡ blocks
  unfolding blocks_of
  blocks_of-array v blocks e f = ground (arith, e, f)

  results-option :
      (o : Option (Part Value Float)) (parts : List (Part Value Float))
      → ids_in j Float (elim o [ none ↦ parts | some p ↦ p ∷ parts ])
        ≡ ids_in j Float (option_list j o) ++ ids_in j Float parts
  unfolding ids_in
  results-option none parts = refl
  results-option (some (Part.text_of_part t)) parts = refl
  results-option (some (Part.image i)) parts = refl
  results-option (some (Part.tool_use id name input)) parts = refl
  results-option (some (Part.tool_result id content images is_error)) parts = refl

  calls-option :
      (o : Option (Part Value Float)) (parts : List (Part Value Float))
      → calls_in j Float (elim o [ none ↦ parts | some p ↦ p ∷ parts ])
        ≡ calls_in j Float (option_list j o) ++ calls_in j Float parts
  unfolding calls_in
  calls-option none parts = refl
  calls-option (some (Part.text_of_part t)) parts = refl
  calls-option (some (Part.image i)) parts = refl
  calls-option (some (Part.tool_use id name input)) parts = refl
  calls-option (some (Part.tool_result id content images is_error)) parts = refl

  module _ (short : Text → Text) (tools : List (Tool Value Float)) where
    decode_blocks-steps :
        (index : ℕ) (blocks : List Value) (spelled after : List Text)
        (parts : List (Part Value Float))
        → decode_blocks j short tools index blocks spelled ≡ ok (parts, after)
        → (ids_in j Float parts ≡ block_results blocks)
          × (calls_in j Float parts ≡ block_calls blocks)
    unfolding decode_blocks block_results block_calls ids_in calls_in
    decode_blocks-steps index [] spelled after parts h =
        let same : parts ≡ [] = cc in rw same (refl, refl)
    decode_blocks-steps index (b ∷ blocks) spelled after parts h =
        let (d, d_e, h1) =
          >>=-eq-ok (decode_block j short tools index (suc (j.depth b)) b spelled) _ h in
        let (rest, rest_e, h2) = >>=-eq-ok (decode_blocks j short tools index blocks d.1) _ h1 in
        let first =
          decode_block-Tells j short tools index (suc (j.depth b)) b spelled d.1 d.0 d_e in
        let others = decode_blocks-steps index blocks d.1 rest.1 rest.0 rest_e in
        let made : (elim d.0 [ none ↦ rest.0 | some p ↦ p ∷ rest.0 ]) ≡ parts = cc in
        rw (← made) (
          results-option d.0 rest.0 ∙ rw (first.0, others.0) refl,
          calls-option d.0 rest.0 ∙ rw (first.1, others.1) refl,
        )

    decode_content-steps :
        (index : ℕ) (content : Option Value) (spelled after : List Text)
        (parts : List (Part Value Float))
        → decode_content j short tools index content spelled ≡ ok (parts, after)
        → (ids_in j Float parts ≡ block_results (blocks_of content))
          × (calls_in j Float parts ≡ block_calls (blocks_of content))
    unfolding decode_content block_results block_calls ids_in calls_in
    decode_content-steps index none spelled after parts h = cc
    decode_content-steps index (some v) spelled after parts h = elim (Option-cases (as_str v)) [
      | inr (t, text_e) ↦
          let same : parts ≡ Part.text_of_part t ∷ [] = ground (arith, text_e, h) in
          rw (same, blocks_of-text v t text_e) (refl, refl)
      | inl no_text ↦ elim (Option-cases (as_array v)) [
        | inl no_array ↦ ground (arith, no_text, no_array, h)
        | inr (blocks, array_e) ↦ rw (blocks_of-array v blocks no_text array_e) (
            decode_blocks-steps index blocks spelled after parts
              (ground (arith, no_text, array_e, h)))
      ]
    ]

    decode_messages-steps :
        (index : ℕ) (raw : List Value) (spelled : List Text)
        (messages : List (RequestMessage Value Float))
        → decode_messages j short tools index raw spelled ≡ ok messages
        → (asked_ids j Float messages ≡ message_steps raw) × All (IsPlain j Float) messages
    unfolding decode_messages asked_ids message_steps
    decode_messages-steps index [] spelled messages h =
        let same : messages ≡ [] = cc in rw same (refl, tt)
    decode_messages-steps index (m ∷ raw) spelled messages h =
        let (d, d_e, h1) = >>=-eq-ok (decode_message j short tools index m spelled) _ h in
        let (rest, rest_e, h2) =
          >>=-eq-ok (decode_messages j short tools (suc index) raw d.1) _ h1 in
        let made : d.0 ∷ rest ≡ messages = cc in
        let content =
          decode_content-steps index (value_get j m (ascii "content")) spelled d.1 d.0.parts
            (decode_message-Decoding j short tools index m spelled d.1 d.0 d_e).content in
        let others = decode_messages-steps (suc index) raw d.1 rest rest_e in
        rw (← made) (
          rw (content.0, content.1, others.0) refl,
          (decode_message-IsPlain j short tools index m spelled d.1 d.0 d_e, others.1),
        )

  messages_in : Result DecodeError (Request Value Float) → List (RequestMessage Value Float)
  messages_in (ok r) = r.messages
  messages_in (err e) = []

  module _ (short : Text → Text) where
    decode_fields-messages :
        (root : j.Object) (model : Text) (tools : List (Tool Value Float))
        (messages : List (RequestMessage Value Float)) (r : Request Value Float)
        → decode_fields j short root model tools messages ≡ ok r
        → messages ≡ r.messages
    unfolding decode_fields messages_in
    decode_fields-messages root model tools messages r h0 =
        let (system_prompt, system_e, h6) = >>=-eq-ok (decode_system j short root) _ h0 in
        let (choice, choice_e, h7) =
          >>=-eq-ok (decode_tool_choice j short (choice_of j short root)) _ h6 in
        let (stops, stops_e, h8) =
          >>=-eq-ok (optional_array j root (ascii "stop_sequences")) _ h7 in
        let (stop, stop_e, h9) = >>=-eq-ok (traverse _ stops) _ h8 in
        let (max_tokens, max_e, h10) =
          >>=-eq-ok (optional j j.as_u64 root (ascii "max_tokens")) _ h9 in
        let (temperature, temperature_e, h11) =
          >>=-eq-ok (optional j j.as_f64 root (ascii "temperature")) _ h10 in
        let (top_p, top_p_e, h12) = >>=-eq-ok (optional j j.as_f64 root (ascii "top_p")) _ h11 in
        let (stream, stream_e, h13) =
          >>=-eq-ok (optional j j.as_bool root (ascii "stream")) _ h12 in
        ap messages_in h13

    decode_root-messages :
        (root : j.Object) (r : Request Value Float)
        → decode_root j short root ≡ ok r
        → (asked_ids j Float r.messages
            ≡ message_steps (unwrap_or [] (field j as_array root (ascii "messages"))))
          × All (IsPlain j Float) r.messages
    unfolding decode_root
    decode_root-messages root r h =
        let (model, model_e, h1) =
          >>=-eq-ok (ok_or (wrong_field (ascii "model")) (field j as_str root (ascii "model"))) _
            h in
        let (raw, raw_e, h2) =
          >>=-eq-ok
            (ok_or (wrong_field (ascii "messages")) (field j as_array root (ascii "messages"))) _
            h1 in
        let (raw_tools, raw_tools_e, h3) = >>=-eq-ok (optional_array j root (ascii "tools")) _ h2 in
        let (tools, tools_e, h4) = >>=-eq-ok (decode_tools j short raw_tools raw) _ h3 in
        let (messages, messages_e, h5) = >>=-eq-ok (decode_messages j short tools 0 raw []) _ h4 in
        let same = decode_fields-messages root model tools messages r h5 in
        let found : raw ≡ unwrap_or [] (field j as_array root (ascii "messages")) =
          ok_or_lem _ [] _ raw_e in
        rw (← same, ← found) (decode_messages-steps short tools 0 raw [] messages messages_e)

    decode-messages :
        (body : Text) (r : Request Value Float)
        → decode j short body ≡ ok r
        → (asked_ids j Float r.messages ≡ document_steps body) × All (IsPlain j Float) r.messages
    unfolding decode
    decode-messages body r h = elim (Result-cases (j.from_slice body)) [
      | inr (why, slice_e) ↦ ground (arith, slice_e, h)
      | inl (v, slice_e) ↦ elim (Option-cases (j.as_object v)) [
        | inl no_object ↦ ground (arith, slice_e, no_object, h)
        | inr (root, object_e) ↦
            rw (document_steps_lem body v root slice_e object_e)
              (decode_root-messages root r (ground (arith, slice_e, object_e, h)))
      ]
    ]

    -- For a body that decodes and any placement of system messages, the backend is told exactly the
    -- tool calls of the body and answered exactly the calls that it answers, in order: of each message
    -- the results, then the calls. The results have the text that was decoded.
    pub steps-decode :
        (body : Text) (p : SystemPlacement) {r : Request Value Float}
        → decode j short body ≡ ok r
        → map by_id (steps (chat_messages j Float p r)) ≡ document_steps body
    steps-decode body p {r} h =
        let read = decode-messages body r h in
        ap (map by_id) (steps-chat_messages j Float p r read.1)
        ∙ by_id-asked j Float r.messages
        ∙ read.0

    -- The same with the texts of the results, of the decoded request.
    pub steps-asked :
        (body : Text) (p : SystemPlacement) {r : Request Value Float}
        → decode j short body ≡ ok r
        → steps (chat_messages j Float p r) ≡ asked j Float r.messages
    steps-asked body p {r} h = steps-chat_messages j Float p r (decode-messages body r h).1

    -- With the placements `Merge` and `User`, whatever body was decoded, no message that a backend is
    -- sent but the first is a system message.
    pub only_first-decode :
        (body : Text) (p : SystemPlacement) {r : Request Value Float}
        → decode j short body ≡ ok r
        → p ≢ keep
        → only_first (chat_messages j Float p r) ≡ true
    only_first-decode body p {r} h other =
        only_first-chat_messages j Float p r (decode-messages body r h).1 other
