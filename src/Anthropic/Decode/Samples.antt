-- ===== src/Anthropic/Decode/Samples.antt =====
-- A request that calls a deferred tool, whose result references it.
use anthroxy.Prelude.{
  ℕ, String, ◌≡◌, refl, true, false, none, some, [], ◌∷◌, ◌++◌, Text, ascii, ok, text_eq,
}
use anthroxy.Json.{Json}
use anthroxy.Json.Tree.{
  Tree, Fields, flag, amount, words, arr, obj, items_of, end, with, get_field, tree,
}
use anthroxy.Ir.Requests.{
  user, assistant, system, Request, text_of_part, tool_use, tool_result, Tool,
}
use anthroxy.Anthropic.Decode.Fields.{field_str, optional_array, optional}
use anthroxy.Anthropic.Decode.{decode}

abbrev typed : String → Fields → Tree
typed t fs = obj (with "type" (words (ascii t)) fs)

abbrev saying : String → Tree → Tree
saying role content = obj (with "role" (words (ascii role)) (with "content" content end))

abbrev reference : Tree
reference = typed "tool_reference" (with "tool_name" (words (ascii "f")) end)

abbrev call : Tree
call =
    typed "tool_use"
      (with "id" (words (ascii "c")) (with "name" (words (ascii "f")) (with "input" (obj end) end)))

abbrev result : Tree
result =
    typed "tool_result" (
      with "tool_use_id" (words (ascii "c")) (with "content" (arr (items_of (reference ∷ []))) end))

abbrev schema : Tree
schema = obj (with "type" (words (ascii "object")) end)

abbrev tool_f : Tree
tool_f = obj (
    with "name" (words (ascii "f"))
      (with "input_schema" schema (with "defer_loading" (flag true) end)))

abbrev pub document : Tree
document = obj (
    with "model" (words (ascii "m")) (
      with "messages"
        (arr (
          items_of (
            saying "user" (words (ascii "hi"))
            ∷ saying "assistant" (arr (items_of (typed "thinking" end ∷ call ∷ [])))
            ∷ saying "user" (arr (items_of (result ∷ [])))
            ∷ saying "system" (words (ascii "s"))
            ∷ [])))
        (with "tools" (arr (items_of (tool_f ∷ []))) (with "max_tokens" (amount 9) end))))

abbrev pub j : Json
j = tree document

abbrev pub short : Text → Text
short t = t

abbrev pub f_tool : Tool Tree ℕ
f_tool = record { name = ascii "f"; description = none; parameters = schema }

abbrev pub decoded : Request Tree ℕ
decoded = record {
  model = ascii "m";
  system_prompt = none;
  messages =
      record { role = user; parts = text_of_part (ascii "hi") ∷ [] }
      ∷ record { role = assistant; parts = tool_use (ascii "c") (ascii "f") (obj end) ∷ [] }
      ∷ record {
        role = user;
        parts =
            tool_result (ascii "c")
              (ascii "<functions>"
                ++ (10 ∷ ascii "<function>{}</function>" ++ (10 ∷ ascii "</functions>")))
              [] false
            ∷ [];
      }
      ∷ record { role = system; parts = text_of_part (ascii "s") ∷ [] }
      ∷ [];
  tools = f_tool ∷ [];
  tool_choice = none;
  max_tokens = some 9;
  temperature = none;
  top_p = none;
  stop = [];
  stream = false;
  user_of = none;
  reasoning_effort = none;
  disable_parallel_tool_calls = false;
}

pub decode-document : decode j short [] ≡ ok decoded
unfolding decode get_field text_eq field_str optional_array optional
decode-document = refl
