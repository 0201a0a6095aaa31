-- ===== src/Config/Templates.antt =====
-- src/config/template.rs: values with placeholders for headers of the client. The crate http is the
-- argument `h`, and `text::short` is the argument `short`.
pub mod Parsing
pub mod Rendering
mod Tests
use anthroxy.Prelude.{
  ℕ, zero, suc, ◌≡◌, Bool, true, false, ◌||◌, not, Option, none, some, List, [], ◌∷◌, ◌++◌,
  if◌then◌else◌, is_empty, any, length, get_elem?, Text, ascii, text_eq, is_utf8, split_once,
  Result, ok, err, map_ok,
}
use anthroxy.Http.{Http}

-- `CLIENT_CREDENTIALS`
abbrev pub client_credentials : List Text
client_credentials = ascii "authorization" ∷ ascii "x-api-key" ∷ ascii "proxy-authorization" ∷ []

pub data TemplateError : Type 0 where
  unterminated : TemplateError
  not_a_header_name client_credential : Text → TemplateError

pub data Part : Type 0 where
  text header : Text → Part

-- `OPEN`
abbrev pub placeholder : Text
placeholder = ascii "{header:"

-- `CLIENT_CREDENTIALS.contains`
unfoldable pub is_client_credential : Text → Bool
unfolding text_eq
is_client_credential name = any (text_eq name) client_credentials

-- Text is a part of its own unless it is empty.
abbrev pub with_text : Text → List Part → List Part
with_text t parts = if is_empty t then parts else text t ∷ parts

module _ (h : Http) (short : Text → Text) where
  -- The name in a placeholder.
  unfoldable pub named : Text → Result TemplateError Text
  unfolding is_client_credential
  named written = elim (h.header_name written) [
    | none ↦ err (not_a_header_name (short written))
    | some name ↦ if is_client_credential name then err (client_credential name) else ok name
  ]

  -- The loop of `Template::parse`, which gives the parts from `rest` on.
  unfoldable pub parse_from : ℕ → Text → Result TemplateError (List Part)
  unfolding named split_once
  parse_from zero rest = err unterminated
  parse_from (suc fuel) rest = elim (split_once placeholder rest) [
    | none ↦ ok (with_text rest [])
    | some (before, after) ↦ elim (split_once (ascii "}") after) [
      | none ↦ err unterminated
      | some (written, behind) ↦ elim (named written) [
        | err e ↦ err e
        | ok name ↦
            map_ok (λ parts. with_text before (header name ∷ parts)) (parse_from fuel behind)
      ]
    ]
  ]

  -- `Template::parse`; each round takes the length of the placeholder off the text.
  unfoldable pub parse : Text → Result TemplateError (List Part)
  unfolding parse_from
  parse t = parse_from (suc (length t)) t

-- `Template::reads_client`
abbrev pub is_header : Part → Bool
is_header (text t) = false
is_header (header name) = true

unfoldable pub reads_client : List Part → Bool
reads_client parts = any is_header parts

module _ (h : Http) where
  -- `client.get(name)` as text that is not empty.
  unfoldable pub client_value : Text → h.Map → Option Text
  unfolding is_utf8
  client_value name client = elim (get_elem? (h.get_all name client) 0) [
    | none ↦ none
    | some value ↦ if not (is_utf8 value) || is_empty value then none else some value
  ]

  unfoldable pub part_value : Part → h.Map → Option Text
  unfolding client_value
  part_value (text t) client = some t
  part_value (header name) client = client_value name client

  -- The loop of `Template::render`.
  unfoldable pub render_from : List Part → h.Map → Text → Option Text
  unfolding part_value
  render_from [] client out = some out
  render_from (part ∷ parts) client out = elim (part_value part client) [
    | none ↦ none
    | some value ↦ render_from parts client (out ++ value)
  ]

  unfoldable pub render : List Part → h.Map → Option Text
  unfolding render_from
  render parts client = render_from parts client []
