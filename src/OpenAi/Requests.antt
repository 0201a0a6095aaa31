-- ===== src/OpenAi/Requests.antt =====
-- src/openai/request.rs: the messages of a chat completion's body. A message is its fields, where
-- none and the empty list are fields that are not inserted; `j` is the JSON crate, `Float` is `f64`.
-- Requests/Body puts them into the document with the other fields.
pub mod Calls
pub mod Systems
pub mod Body
pub mod Reading
pub mod Tools
mod Tests
use anthroxy.Prelude.{
  ℕ, ◌==◌, Bool, true, false, ◌&&◌, not, Option, none, some, List, [], ◌∷◌, ◌++◌, map,
  if◌then◌else◌, is_empty, length, any, Text, ascii, join, decimal,
}
use anthroxy.Json.{Json}
use anthroxy.Ir.Requests.{
  Role, user, assistant, system, Image, ToolChoice, Part, text_of_part, image, tool_use,
  tool_result, RequestMessage, Tool, Request,
}

-- `TEXT_SEPARATOR`
abbrev pub text_separator : Text
text_separator = 10 ∷ 10 ∷ []

pub data SystemPlacement : Type 0 where
  keep merge as_user : SystemPlacement

pub record ChatToolCall : Type 0 where
  pub call_id : Text
  pub function_name : Text
  pub arguments : Text

-- The parts of a content: a text, or an image's URL.
pub data ContentPart : Type 0 where
  text_part image_url : Text → ContentPart

pub data Content : Type 0 where
  plain : Text → Content
  parts_of : List ContentPart → Content

pub data ChatMessage : Type 0 where
  chat : Role → Option Content → List ChatToolCall → ChatMessage
  -- tool_call_id, content
  tool_message : Text → Text → ChatMessage

pub data Piece : Type 0 where
  said label : Text → Piece
  picture : Text → Piece

abbrev pub is_picture : Piece → Bool
is_picture (said t) = false
is_picture (label t) = false
is_picture (picture url) = true

-- `image_part`
unfoldable pub image_part : Image → Text
image_part i = ascii "data:" ++ (i.media_type ++ (ascii ";base64," ++ i.data_of))

abbrev pub piece_part : Piece → ContentPart
piece_part (said t) = text_part t
piece_part (label t) = text_part t
piece_part (picture url) = image_url url

-- The text of a piece that is no image.
abbrev pub piece_text : Piece → Text
piece_text (said t) = t
piece_text (label t) = t
piece_text (picture url) = url

unfoldable pub content_of : List Piece → Option Content
unfolding join
content_of [] = none
content_of (p ∷ pieces) =
    if any is_picture (p ∷ pieces)
    then some (parts_of (map piece_part (p ∷ pieces)))
    else some (plain (join text_separator (map piece_text (p ∷ pieces))))

-- The text of a tool message: marked when the tool failed, with a note of the images that follow.
unfoldable pub result_text : Text → List Image → Bool → Text
unfolding decimal
result_text content images is_error =
    let marked = if is_error then ascii "[tool error]" ++ (10 ∷ content) else content in
    let note =
      if length images == 1
      then ascii "(1 image from this tool call follows in the next user message)"
      else ascii "("
        ++ (decimal (length images)
            ++ ascii " images from this tool call follow in the next user message)") in
    if is_empty images
    then marked
    else (if is_empty marked then note else marked ++ (text_separator ++ note))

unfoldable pub image_pieces : Text → List Image → List Piece
unfolding image_part
image_pieces tool_use_id images =
    if is_empty images
    then []
    else label (
        (if length images == 1 then ascii "Image" else ascii "Images")
        ++ (ascii " from tool call " ++ (tool_use_id ++ ascii ":")))
      ∷ map (λ i. picture (image_part i)) images

-- The message that follows the tool messages.
unfoldable pub own_message : Role → Option Content → List ChatToolCall → Bool → List ChatMessage
own_message role (some content) calls emitted = chat role (some content) calls ∷ []
own_message role none [] true = []
own_message role none [] false = chat role (some (plain [])) [] ∷ []
own_message role none (c ∷ calls) emitted = chat role none (c ∷ calls) ∷ []

abbrev pub is_system : Role → Bool
is_system system = true
is_system user = false
is_system assistant = false

-- `unwrap_or_default`
abbrev or_empty : Option Text → Text
or_empty none = []
or_empty (some t) = t

unfoldable pub reminder : Text → ChatMessage
reminder t =
    chat user
      (some (plain (ascii "<system-reminder>" ++ (10 ∷ t ++ (10 ∷ ascii "</system-reminder>"))))) []

module _ (j : Json) (Float : Type 0) where
  open j use {Value}

  -- The loop of `encode_message` over the parts: the pieces, the tool calls and the tool messages.
  unfoldable pub pieces_of : List (Part Value Float) → List Piece
  unfolding image_part image_pieces
  pieces_of [] = []
  pieces_of (text_of_part t ∷ parts) = said t ∷ pieces_of parts
  pieces_of (image i ∷ parts) = picture (image_part i) ∷ pieces_of parts
  pieces_of (tool_use id name input ∷ parts) = pieces_of parts
  pieces_of (tool_result id content images is_error ∷ parts) =
      image_pieces id images ++ pieces_of parts

  unfoldable pub calls_of : List (Part Value Float) → List ChatToolCall
  calls_of [] = []
  calls_of (tool_use id name input ∷ parts) =
      record { call_id = id; function_name = name; arguments = j.to_string input } ∷ calls_of parts
  calls_of (_ ∷ parts) = calls_of parts

  unfoldable pub tool_messages : List (Part Value Float) → List ChatMessage
  unfolding result_text
  tool_messages [] = []
  tool_messages (tool_result id content images is_error ∷ parts) =
      tool_message id (result_text content images is_error) ∷ tool_messages parts
  tool_messages (_ ∷ parts) = tool_messages parts

  -- What `encode_message` appends.
  unfoldable pub encode_message : RequestMessage Value Float → List ChatMessage
  unfolding pieces_of calls_of tool_messages content_of own_message
  encode_message m =
      tool_messages m.parts
      ++ own_message m.role (content_of (pieces_of m.parts)) (calls_of m.parts)
          (not (is_empty (tool_messages m.parts)))

  unfoldable pub texts : List (Part Value Float) → List Text
  texts [] = []
  texts (text_of_part t ∷ parts) = t ∷ texts parts
  texts (_ ∷ parts) = texts parts

  unfoldable pub text_of : RequestMessage Value Float → Text
  unfolding texts join
  text_of m = join text_separator (texts m.parts)

  -- The system messages added to the system prompt.
  unfoldable pub merged : List (RequestMessage Value Float) → Text → Text
  unfolding text_of
  merged [] prompt = prompt
  merged (m ∷ messages) prompt = merged messages (
      if not (is_system m.role)
      then prompt
      else if is_empty (text_of m)
      then prompt
      else if is_empty prompt
      then text_of m
      else prompt ++ (text_separator ++ text_of m))

  -- The messages that one makes; `leading` is that none is before it.
  unfoldable pub placed : SystemPlacement → Bool → RequestMessage Value Float → List ChatMessage
  unfolding encode_message reminder text_of
  placed merge leading m = if is_system m.role then [] else encode_message m
  placed as_user leading m =
      if is_system m.role && not leading then reminder (text_of m) ∷ [] else encode_message m
  placed keep leading m = encode_message m

  unfoldable pub place :
      SystemPlacement → List (RequestMessage Value Float) → List ChatMessage → List ChatMessage
  unfolding placed
  place p [] out = out
  place p (m ∷ messages) out = place p messages (out ++ placed p (is_empty out) m)

  unfoldable pub system_text : SystemPlacement → Request Value Float → Text
  unfolding merged
  system_text p r =
      let prompt = or_empty r.system_prompt in
      elim p [ merge ↦ merged r.messages prompt | keep ↦ prompt | as_user ↦ prompt ]

  -- The `messages` of the body.
  unfoldable pub chat_messages : SystemPlacement → Request Value Float → List ChatMessage
  unfolding place system_text
  chat_messages p r =
      let t = system_text p r in
      place p r.messages (if is_empty t then [] else chat system (some (plain t)) [] ∷ [])
