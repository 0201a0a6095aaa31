-- ===== src/BodyFields/Tests.antt =====
-- Two fields set in a body, one below a text that is replaced.
use anthroxy.Prelude.{◌≡◌, refl, some, [], ◌∷◌, ascii, text_eq}
use anthroxy.Json.{Json}
use anthroxy.Json.Tree.{Tree, amount, words, end, with, tree, tree-IsLawful}
use anthroxy.BodyFields.{BodyField, set_all}
use anthroxy.BodyFields.Paths.{parts, get_path, set_all-get_path}

abbrev j : Json
j = tree (words [])

abbrev session : BodyField Tree
session = record { path = ascii "extra" ∷ ascii "id" ∷ []; value = words (ascii "s") }

abbrev version : BodyField Tree
version = record { path = ascii "extra" ∷ ascii "v" ∷ []; value = amount 1 }

set_all-get_path_example :
    get_path j
      (set_all j (with "extra" (words (ascii "old")) end) (version ∷ session ∷ version ∷ []))
      (ascii "extra" ∷ ascii "id" ∷ [])
    ≡ some (words (ascii "s"))
unfolding parts text_eq
set_all-get_path_example =
    set_all-get_path j (tree-IsLawful (words [])) (with "extra" (words (ascii "old")) end)
      (version ∷ []) (version ∷ []) session (λ e. cc) (refl, tt)
