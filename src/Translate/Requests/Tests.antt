-- ===== src/Translate/Requests/Tests.antt =====
-- A request that calls a tool, translated with a field that the configuration sets.
use anthroxy.Prelude.{◌≡◌, refl, true, [], ◌∷◌, ascii, text_eq, ok}
use anthroxy.Json.Tree.{Tree, Fields, words, tree-IsLawful}
use anthroxy.OpenAi.Requests.{merge}
use anthroxy.OpenAi.Requests.Reading.{system_leads}
use anthroxy.BodyFields.{BodyField}
use anthroxy.BodyFields.Paths.{parts}
use anthroxy.Anthropic.Decode.Samples.{document, j, short, decoded, decode-document}
use anthroxy.Translate.Requests.{request_body, only_first-request_body}

abbrev session : BodyField Tree
session = record { path = ascii "extra" ∷ ascii "id" ∷ []; value = words (ascii "s") }

only_first-request_body_example :
    (b : Fields) × (request_body j short [] (ascii "u") merge (session ∷ []) ≡ ok b)
    × (system_leads j b ≡ true)
unfolding parts text_eq
only_first-request_body_example =
    only_first-request_body j short (tree-IsLawful document) [] (ascii "u") merge (session ∷ [])
      decoded decode-document (λ e. cc) ((refl, tt), tt)
