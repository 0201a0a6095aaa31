-- ===== src/Anthropic/Messages.antt =====
-- src/anthropic/message.rs: the document of a whole message. Its fields are those of the JSON that the
-- source builds; printing them is not modelled. The JSON crate is the argument `j`.
use anthroxy.Prelude.{Option, none, List, map, Text, ok, err}
use anthroxy.Ir.{StopReason, Usage}
use anthroxy.Ir.Messages.{Message, Block, thinking, text, tool_use}
use anthroxy.Json.{Json}
use anthroxy.Anthropic.Stream.{identity}

module _ (j : Json) where
  open j use {Object}

  pub data Content : Type 0 where
    thinking_content text_content : Text → Content
    -- id, name and the input, where none is `{}`.
    tool_content : Text → Text → Option Object → Content

  -- `tool_input`: the arguments when they are an object.
  unfoldable pub tool_input : Text → Option Object
  tool_input arguments = elim (j.from_slice arguments) [ err e ↦ none | ok v ↦ j.as_object v ]

  unfoldable pub content_of : Block → Content
  unfolding tool_input
  content_of (thinking t) = thinking_content t
  content_of (text t) = text_content t
  content_of (tool_use id name arguments) = tool_content id name (tool_input arguments)

  pub record MessageDocument : Type 0 where
    pub id : Text
    pub model : Text
    pub content : List Content
    pub stop_reason : StopReason
    pub usage : Usage

  -- `encode`; the last argument is what the crate uuid drew.
  unfoldable pub encode_message : Message → Text → Text → MessageDocument
  unfolding content_of identity
  encode_message m fallback_model uuid =
      let (id, model) = identity uuid m.id m.model fallback_model in
      record {
        id = id;
        model = model;
        content = map content_of m.blocks;
        stop_reason = m.stop_reason;
        usage = m.total_usage;
      }
