-- ===== src/OpenAi/Requests/Tools.antt =====
-- The tools in the document that src/openai/request.rs makes, as a backend reads them off the JSON.
use anthroxy.Prelude.{
  ◌≡◌, refl, ap, sym, ◌∙◌, Bool, false, Option, none, some, List, [], ◌∷◌, map, Text, ascii,
  text_eq, arith, Bool-cases, Option-cases, inl, inr,
}
use mathlib.Core.Path.{subst}
use anthroxy.Json.{Json, IsLawful, value_get, field, insert_some}
use anthroxy.Ir.Requests.{Tool}
use anthroxy.OpenAi.Requests.Body.{unless_empty, with_properties, tool_value}
use anthroxy.OpenAi.Requests.Reading.{items_or_none, first_some-none}
use anthroxy.OpenAi.Requests.Reading.Sent.{value_get-object, get-insert_some}

module _ (j : Json) where
  open j use {Value, Object, as_object, as_array, as_str, get, object, array, string}

  -- A field of a tool's function.
  abbrev pub function_get : Text → Value → Option Value
  function_get key v = elim (value_get j v (ascii "function")) [
    | none ↦ none
    | some f ↦ value_get j f key
  ]

  -- The schema of a tool as it is sent: an object without `properties` gets an empty one.
  pub data SchemaSent (schema : Value) : Value → Type 0 where
    as_is : SchemaSent schema schema
    completed :
        (fields : Object)
        → as_object schema ≡ some fields
        → get fields (ascii "properties") ≡ none
        → SchemaSent schema (object (j.insert (ascii "properties") (object j.empty) fields))

  pub record SendsTool (t : Tool Value j.Float) (v : Value) : Type 0 where
    pub name_sent : function_get (ascii "name") v ≡ some (string t.name)
    pub description_sent :
        function_get (ascii "description") v
        ≡ elim t.description [ none ↦ none | some d ↦ some (string d) ]
    pub schema : Value
    pub schema_sent : function_get (ascii "parameters") v ≡ some schema
    pub schema_kept : SchemaSent t.parameters schema

  -- Tool for tool, in order.
  pub data SendsTools : List (Tool Value j.Float) → List Value → Type 0 where
    both_end : SendsTools [] []
    both_send :
        (t : Tool Value j.Float) (v : Value) (ts : List (Tool Value j.Float)) (vs : List Value)
        → SendsTool t v
        → SendsTools ts vs
        → SendsTools (t ∷ ts) (v ∷ vs)

  abbrev says_object : Object → Bool
  says_object fields = elim (field j as_str fields (ascii "type")) [
    | none ↦ false
    | some t ↦ text_eq t (ascii "object")
  ]

  from_schema :
      (schema sent : Value)
      → with_properties j schema ≡ sent
      → SchemaSent schema sent
      → SchemaSent schema (with_properties j schema)
  from_schema schema sent e s = subst (λ v. SchemaSent schema v) (sym e) s

  with_properties-SchemaSent : (schema : Value) → SchemaSent schema (with_properties j schema)
  unfolding with_properties
  with_properties-SchemaSent schema = elim (Option-cases (as_object schema)) [
    | inl no_object ↦ from_schema schema schema (ground (arith, no_object)) as_is
    | inr (fields, e) ↦ elim (Option-cases (get fields (ascii "properties"))) [
      | inr (p, there) ↦ from_schema schema schema (ground (arith, e, there)) as_is
      | inl lacks ↦ elim (Bool-cases (says_object fields)) [
        | inr other ↦ from_schema schema schema (ground (arith, e, lacks, other)) as_is
        | inl same ↦
            from_schema schema (object (j.insert (ascii "properties") (object j.empty) fields))
              (ground (arith, e, lacks, same)) (completed fields e lacks)
      ]
    ]
  ]

  module _ (lawful : IsLawful j) where
    -- The function of a tool.
    abbrev function_fields : Tool Value j.Float → Object
    function_fields t = j.insert (ascii "parameters") (with_properties j t.parameters) (
        insert_some j (ascii "description")
          (elim t.description [ none ↦ none | some d ↦ some (string d) ])
          (j.insert (ascii "name") (string t.name) j.empty))

    of_function :
        (t : Tool Value j.Float) (key : Text)
        → function_get key (tool_value j t) ≡ get (function_fields t) key
    unfolding tool_value text_eq
    of_function t key =
        ap (λ o. elim o [ none ↦ none | some f ↦ value_get j f key ])
          (value_get-object j lawful _ (ascii "function") _ (simp lawful.get-insert refl))
        ∙ ap (λ m. elim m [ none ↦ none | some p ↦ get p key ])
            (lawful.as_object-object (function_fields t))

    tool_value-SendsTool : (t : Tool Value j.Float) → SendsTool t (tool_value j t)
    unfolding tool_value text_eq
    tool_value-SendsTool t = record {
      name_sent =
          of_function t (ascii "name") ∙ simp (get-insert_some j lawful, lawful.get-insert) refl;
      description_sent =
          of_function t (ascii "description")
          ∙ simp (get-insert_some j lawful, lawful.get-insert, lawful.get-empty)
              (first_some-none _);
      schema = with_properties j t.parameters;
      schema_sent = of_function t (ascii "parameters") ∙ simp lawful.get-insert refl;
      schema_kept = with_properties-SchemaSent t.parameters;
    }

    map-SendsTools : (ts : List (Tool Value j.Float)) → SendsTools ts (map (tool_value j) ts)
    map-SendsTools [] = both_end
    map-SendsTools (t ∷ ts) =
        both_send t (tool_value j t) ts _ (tool_value-SendsTool t) (map-SendsTools ts)

    pub items-SendsTools :
        (ts : List (Tool Value j.Float))
        → SendsTools ts (items_or_none j (unless_empty (λ us. array (map (tool_value j) us)) ts))
    items-SendsTools [] = both_end
    items-SendsTools (t ∷ ts) =
        subst (λ o. SendsTools (t ∷ ts) (elim o [ none ↦ [] | some vs ↦ vs ]))
          (sym (lawful.as_array-array (map (tool_value j) (t ∷ ts)))) (map-SendsTools (t ∷ ts))
