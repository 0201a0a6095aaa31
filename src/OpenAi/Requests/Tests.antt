-- ===== src/OpenAi/Requests/Tests.antt =====
-- A request with a system message and a tool call in its conversation.
use anthroxy.Prelude.{◌≡◌, refl, false, none, some, List, [], ◌∷◌, ◌++◌, ascii, join, All}
use anthroxy.Json.Sample.{sample, Node, root}
use anthroxy.Ir.Requests.{
  user, assistant, system, RequestMessage, Request, text_of_part, tool_use, tool_result,
}
use anthroxy.OpenAi.Requests.{merge, chat, tool_message, plain, chat_messages}
use anthroxy.OpenAi.Requests.Calls.{IsPlain}

abbrev messages : List (RequestMessage Node Unit)
messages =
    record { role = user; parts = text_of_part (ascii "hi") ∷ [] }
    ∷ record { role = assistant; parts = tool_use (ascii "c") (ascii "f") root ∷ [] }
    ∷ record { role = user; parts = tool_result (ascii "c") (ascii "r") [] false ∷ [] }
    ∷ record { role = system; parts = text_of_part (ascii "s") ∷ [] }
    ∷ []

abbrev request : Request Node Unit
request = record {
  model = ascii "m";
  system_prompt = some (ascii "p");
  messages = messages;
  tools = [];
  tool_choice = none;
  max_tokens = none;
  temperature = none;
  top_p = none;
  stop = [];
  stream = false;
  user_of = none;
  reasoning_effort = none;
  disable_parallel_tool_calls = false;
}

request-chat_messages :
    chat_messages sample Unit merge request
    ≡ chat system (some (plain (ascii "p" ++ (10 ∷ 10 ∷ ascii "s")))) []
      ∷ chat user (some (plain (ascii "hi"))) []
      ∷ chat assistant none
          (record { call_id = ascii "c"; function_name = ascii "f"; arguments = ascii "{hi}" } ∷ [])
      ∷ tool_message (ascii "c") (ascii "r")
      ∷ []
unfolding chat_messages join
request-chat_messages = refl

messages-IsPlain : All (IsPlain sample Unit) messages
unfolding IsPlain
messages-IsPlain = ((λ e. cc), ((λ e. cc), ((λ e. cc), ((λ e. (refl, tt)), tt))))
