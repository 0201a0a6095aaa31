-- ===== src/Anthropic/Decode/Tests.antt =====
-- What the theorems on decoding say of a request with a deferred tool.
use anthroxy.Prelude.{ℕ, map, ◌≡◌, ◌≢◌, some, [], ◌∷◌, ascii, err, text_eq}
use anthroxy.Json.Tree.{get_field, tree-IsLawful}
use anthroxy.OpenAi.Requests.{merge, chat_messages}
use anthroxy.OpenAi.Requests.Calls.{by_id, steps, calls, answers}
use anthroxy.Anthropic.Decode.Fields.{too_deep}
use anthroxy.Anthropic.Decode.References.{function_text, distinct, functions, functions_block}
use anthroxy.Anthropic.Decode.Tools.{is_typed}
use anthroxy.Anthropic.Decode.Functions.{read_block, read_block-functions_block}
use anthroxy.Anthropic.Decode.Documents.{document_steps, steps-decode}
use anthroxy.Anthropic.Decode.Depth.{decode-ne-too_deep}
use anthroxy.Anthropic.Decode.{decode}
use anthroxy.Anthropic.Decode.Samples.{document, j, short, decoded, f_tool, decode-document}

steps-decode_example :
    map by_id (steps (chat_messages j ℕ merge decoded))
    ≡ calls (ascii "c") (ascii "f") (ascii "{}") ∷ answers (ascii "c") [] ∷ []
unfolding document_steps get_field text_eq is_typed
steps-decode_example = steps-decode j short [] merge decode-document

read_block-functions_block_example :
    read_block (functions_block j (f_tool ∷ []) [] (ascii "f" ∷ ascii "g" ∷ ascii "f" ∷ [])).0
    ≡ some (ascii "{}" ∷ ascii "{}" ∷ [])
unfolding functions function_text get_field text_eq distinct
read_block-functions_block_example =
    read_block-functions_block j (f_tool ∷ []) [] (ascii "f" ∷ ascii "g" ∷ ascii "f" ∷ [])

decode-ne-too_deep_example : decode j short [] ≢ err too_deep
decode-ne-too_deep_example = decode-ne-too_deep j (tree-IsLawful document) short []
