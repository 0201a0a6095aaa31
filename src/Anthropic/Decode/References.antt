-- ===== src/Anthropic/Decode/References.antt =====
-- `functions_block` of src/anthropic/decode.rs: the definitions of the tools that references name, as
-- text. A definition that was `spelled` before is not spelled again.
use anthroxy.Prelude.{
  ℕ, ◌==◌, ◌&&◌, Option, none, some, List, [], ◌∷◌, ◌++◌, if◌then◌else◌, any, Text, ascii, text_eq,
}
use anthroxy.Json.{Json, insert_some}
use anthroxy.Ir.Requests.{Tool}

-- The names in order, each at its first place: `seen`.
unfoldable pub distinct : List Text → List Text → List Text
distinct seen [] = []
distinct seen (n ∷ names) =
    let rest = distinct (n ∷ seen) names in if any (text_eq n) seen then rest else n ∷ rest

-- `replace("</", "<\\/")`; two places of `</` never overlap. The byte before is the argument.
unfoldable pub escape_close : ℕ → Text → Text
escape_close before [] = []
escape_close before (c ∷ t) =
    let rest = escape_close c t in if before == b'<' && c == b'/' then 92 ∷ c ∷ rest else c ∷ rest

-- The lines of the block, each with a function's text.
unfoldable pub function_lines : List Text → Text
function_lines [] = []
function_lines (t ∷ ts) =
    ascii "<function>" ++ (t ++ (ascii "</function>" ++ (10 ∷ function_lines ts)))

unfoldable pub block_text : List Text → Text
unfolding function_lines
block_text ts = ascii "<functions>" ++ (10 ∷ function_lines ts ++ ascii "</functions>")

module _ (j : Json) where
  open j use {Value, object, string, insert}

  pub record Function : Type 0 where
    pub description : Option Text
    pub name : Text
    pub parameters : Option Value

  -- What serde makes of a `Function`, the fields in order.
  unfoldable pub function_value : Function → Value
  function_value f =
      let described =
        insert_some j (ascii "description")
          (elim f.description [ none ↦ none | some d ↦ some (string d) ]) j.empty in
      object (
        insert_some j (ascii "parameters") f.parameters
          (insert (ascii "name") (string f.name) described))

  unfoldable pub function_text : Function → Text
  unfolding function_value escape_close
  function_text f = escape_close 0 (j.to_string (function_value f))

  -- `by_name`, where a later tool replaces an earlier one of its name.
  unfoldable pub by_name : List (Tool Value j.Float) → Text → Option (Tool Value j.Float)
  by_name [] name = none
  by_name (t ∷ tools) name =
      let later = by_name tools name in
      elim later [ some u ↦ some u | none ↦ if text_eq t.name name then some t else none ]

  -- `by_name.get(name).filter(|_| spelled.insert(name))`
  unfoldable pub fresh_definition :
      List (Tool Value j.Float) → List Text → Text → Option (Tool Value j.Float)
  unfolding by_name
  fresh_definition tools spelled name =
      if any (text_eq name) spelled then none else by_name tools name

  abbrev pub spelled_after : Text → Option (Tool Value j.Float) → List Text → List Text
  spelled_after name none spelled = spelled
  spelled_after name (some t) spelled = name ∷ spelled

  abbrev pub function_of : Text → Option (Tool Value j.Float) → Function
  function_of name none = record { description = none; name = name; parameters = none }
  function_of name (some t) = record {
    description = t.description;
    name = name;
    parameters = some t.parameters;
  }

  -- The functions for distinct names, and what is spelled after them.
  unfoldable pub functions :
      List (Tool Value j.Float) → List Text → List Text → List Function × List Text
  unfolding fresh_definition
  functions tools spelled [] = ([], spelled)
  functions tools spelled (name ∷ names) =
      let tool = fresh_definition tools spelled name in
      let rest = functions tools (spelled_after name tool spelled) names in
      (function_of name tool ∷ rest.0, rest.1)

  abbrev pub function_texts : List Function → List Text
  function_texts [] = []
  function_texts (f ∷ fs) = function_text f ∷ function_texts fs

  unfoldable pub functions_block :
      List (Tool Value j.Float) → List Text → List Text → Text × List Text
  unfolding functions distinct block_text function_text
  functions_block tools spelled names =
      let found = functions tools spelled (distinct [] names) in
      (block_text (function_texts found.0), found.1)
