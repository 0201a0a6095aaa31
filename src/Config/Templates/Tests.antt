-- ===== src/Config/Templates/Tests.antt =====
-- Runs of templates.
use anthroxy.Prelude.{◌≡◌, refl, none, some, List, [], ◌∷◌, Text, ascii, text_eq, is_utf8, ok, err}
use anthroxy.Http.Sample.{sample}
use anthroxy.Config.Templates.{Part, text, header, unterminated, client_credential, parse, render}
use anthroxy.Config.Templates.Parsing.{IsSpelled, parse-IsSpelled}

abbrev shown : Text → Text
shown t = t

abbrev session : Text
session = ascii "cc-{header:x-app}!"

abbrev session_parts : List Part
session_parts = text (ascii "cc-") ∷ header (ascii "x-app") ∷ text (ascii "!") ∷ []

session-parse : parse sample shown session ≡ ok session_parts
unfolding parse
session-parse = refl

credential-parse :
    parse sample shown (ascii "{header:x-api-key}") ≡ err (client_credential (ascii "x-api-key"))
unfolding parse
credential-parse = refl

unterminated-parse : parse sample shown (ascii "cc-{header:x-app") ≡ err unterminated
unfolding parse
unterminated-parse = refl

session-render :
    render sample session_parts ((ascii "x-app", ascii "cli") ∷ []) ≡ some (ascii "cc-cli!")
unfolding render is_utf8 text_eq
session-render = refl

absent-render : render sample session_parts [] ≡ none
unfolding render
absent-render = refl

parse-IsSpelled_example : IsSpelled sample session_parts session
parse-IsSpelled_example = parse-IsSpelled sample shown session session_parts session-parse
