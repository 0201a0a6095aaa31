-- ===== src/Translate/Requests.antt =====
-- src/translate/request.rs: a Messages request to the body of a chat completion for a backend.
mod Tests
use anthroxy.Prelude.{
  ◌≡◌, ◌≢◌, refl, ◌∙◌, true, none, some, List, [], ◌∷◌, map, Text, ascii, text_eq, All, Result, ok,
  map_ok, arith,
}
use anthroxy.Json.{Json, IsLawful}
use anthroxy.Ir.Requests.{Request}
use anthroxy.OpenAi.Requests.{SystemPlacement, keep, chat_messages}
use anthroxy.OpenAi.Requests.Tools.{SendsTools}
use anthroxy.OpenAi.Requests.Calls.{by_id, asked}
use anthroxy.OpenAi.Requests.Reading.{body_steps, system_leads, items_or_none}
use anthroxy.OpenAi.Requests.Reading.Sent.{system_leads-sent, get-insert_some}
use anthroxy.OpenAi.Requests.Body.{encode, message_value, if_some}
use anthroxy.BodyFields.{BodyField, set_all}
use anthroxy.BodyFields.Paths.{parts, get_path, get_path-set_all}
use anthroxy.Anthropic.Decode.Fields.{DecodeError}
use anthroxy.Anthropic.Decode.{decode}
use anthroxy.Anthropic.Decode.Documents.{document_steps, only_first-decode}

module _ (j : Json) (short : Text → Text) where
  open j use {Value, Object, Float, get, object, array, string, boolean}

  -- The body as a document.
  unfoldable pub request_body :
      Text → Text → SystemPlacement → List (BodyField Value) → Result DecodeError Object
  unfolding decode encode set_all
  request_body anthropic_body upstream_model placement set_fields =
      map_ok
        (λ ir. set_all j (encode j (record ir { model = upstream_model }) placement) set_fields)
        (decode j short anthropic_body)

  unfoldable pub request :
      Text → Text → SystemPlacement → List (BodyField Value) → Result DecodeError Text
  unfolding request_body
  request anthropic_body upstream_model placement set_fields =
      map_ok (λ o. j.to_string (object o))
        (request_body anthropic_body upstream_model placement set_fields)

  module _ (lawful : IsLawful j) where
    get-encode_messages :
        (r : Request Value Float) (p : SystemPlacement)
        → get (encode j r p) (ascii "messages")
          ≡ some (array (map (message_value j) (chat_messages j Float p r)))
    unfolding encode text_eq
    get-encode_messages r p = simp (get-insert_some j lawful, lawful.get-insert) refl

    -- What a body tells its backend of a client's.
    pub record Translates (body model : Text) (r : Request Value Float) (b : Object) : Type 0 where
      pub named : get b (ascii "model") ≡ some (string model)
      pub told : map by_id (body_steps j b) ≡ document_steps j body
      pub with_texts : body_steps j b ≡ asked j Float r.messages
      pub equipped : SendsTools j r.tools (items_or_none j (get b (ascii "tools")))
      pub unequipped : r.tools ≡ [] → get b (ascii "tools") ≡ none
      pub limited : get b (ascii "max_tokens") ≡ if_some j j.number r.max_tokens
      pub streamed : get b (ascii "stream") ≡ some (boolean r.stream)

    -- The fields of a body that the translation itself writes.
    abbrev pub own_keys : List Text
    own_keys =
        ascii "model" ∷ ascii "messages" ∷ ascii "tools" ∷ ascii "max_tokens" ∷ ascii "stream" ∷ []

    -- None of the fields to set is one of these or lies in one.
    abbrev pub LeavesAlone : List Text → List (BodyField Value) → Type 0
    LeavesAlone keys fields = All (λ key. All (λ f. parts f.path (key ∷ []) ≡ true) fields) keys

    -- With the placements `Merge` and `User`, a body that decodes is translated to one in which, read off
    -- the JSON, no message but the first has the role of a system message, when the fields that are set
    -- leave the messages alone.
    pub only_first-request_body :
        (body model : Text) (p : SystemPlacement) (fields : List (BodyField Value))
        (r : Request Value Float)
        → decode j short body ≡ ok r
        → p ≢ keep
        → LeavesAlone (ascii "messages" ∷ []) fields
        → (b : Object) × (request_body body model p fields ≡ ok b) × (system_leads j b ≡ true)
    unfolding request_body get_path
    only_first-request_body body model p fields r h other a =
        let ir = record r { model = model } in
        let o = encode j ir p in
        let sent : get (set_all j o fields) (ascii "messages") ≡ _ =
          get_path-set_all j lawful o fields (ascii "messages" ∷ []) a.0
          ∙ get-encode_messages ir p in
        (
          set_all j o fields,
          rw h refl,
          system_leads-sent j lawful _ (chat_messages j Float p ir) sent
              ∙ only_first-decode j short body p h other,
        )
