-- ===== src/OpenAi/Errors.antt =====
-- src/openai/error.rs, with the error documents of src/openai/common.rs.
use anthroxy.Prelude.{
  ℕ, ◌||◌, Option, none, some, List, [], ◌∷◌, ◌++◌, if◌then◌else◌, any, not, Text, ascii, text_eq,
  contains, trim, take_chars, from_utf8_lossy, ok, err,
}
use anthroxy.Ir.{Failure, FailureKind}
use anthroxy.Ir.Failures.{
  invalid_request, context_exceeded, authentication, permission, not_found, request_too_large,
  rate_limit, overloaded, upstream, from_status, is_unspecific, says_context_exceeded, squashed,
  failure,
}
use anthroxy.Json.{Json, field}
use anthroxy.OpenAi.{parse_object}

abbrev pub max_raw_message : ℕ
max_raw_message = 200

unfoldable pub named_kind : Text → Option FailureKind
unfolding squashed contains
named_kind name =
    let has = λ (needle : Text). contains needle (squashed name) in
    if has (ascii "ratelimit") || has (ascii "quota")
    then some rate_limit
    else if has (ascii "overload") || (has (ascii "unavailable") || has (ascii "capacity"))
    then some overloaded
    else if has (ascii "authentication") || (has (ascii "apikey") || has (ascii "unauthorized"))
    then some authentication
    else if has (ascii "permission") || has (ascii "forbidden")
    then some permission
    else if has (ascii "notfound")
    then some not_found
    else if has (ascii "toolarge") || has (ascii "toolong")
    then some request_too_large
    else if has (ascii "invalid") || has (ascii "badrequest")
    then some invalid_request
    else none

-- `find_map(named_kind)`
unfoldable pub first_named : List Text → Option FailureKind
unfolding named_kind
first_named [] = none
first_named (name ∷ names) =
    let rest = first_named names in elim (named_kind name) [ some k ↦ some k | none ↦ rest ]

abbrev named_or_upstream : List Text → FailureKind
named_or_upstream names = elim (first_named names) [ some k ↦ k | none ↦ upstream ]

-- The kind of a failure: an overflow named anywhere, else the status where it says something, else
-- the names of the document.
unfoldable pub failure_kind : Option ℕ → Text → List Text → FailureKind
unfolding says_context_exceeded from_status is_unspecific first_named
failure_kind status message names =
    if any says_context_exceeded (names ++ message ∷ []) then context_exceeded else elim status [
      | none ↦ named_or_upstream names
      | some s ↦
          if not (is_unspecific (from_status s)) then from_status s else named_or_upstream names
    ]

module _ (j : Json) where
  open j use {Value, Object, as_object, as_str, is_null, get, object, to_string}

  unfoldable pub error_text : Value → Text
  error_text error = elim (as_str error) [
    | some t ↦ t
    | none ↦ elim (as_object error) [
      | none ↦ to_string error
      | some fields ↦ elim (field j as_str fields (ascii "message")) [
        | some t ↦ t
        | none ↦ to_string error
      ]
    ]
  ]

  -- vLLM's `{"object": "error", "message": …}`
  abbrev pub bare_error : Object → Option Text
  bare_error root = elim (field j as_str root (ascii "object")) [
    | none ↦ none
    | some name ↦
        if text_eq name (ascii "error")
        then some (elim (field j as_str root (ascii "message")) [
          | some t ↦ t
          | none ↦ to_string (object root)
        ])
        else none
  ]

  unfoldable pub error_document : Object → Option Text
  unfolding error_text text_eq
  error_document root = elim (get root (ascii "error")) [
    | none ↦ bare_error root
    | some e ↦ if is_null e then bare_error root else some (error_text e)
  ]

  abbrev pub listed : Option Text → List Text
  listed none = []
  listed (some t) = t ∷ []

  unfoldable pub error_names : Object → List Text
  error_names root =
      let error : Object = elim (field j as_object root (ascii "error")) [
        | some o ↦ o
        | none ↦ root
      ] in
      listed (field j as_str error (ascii "type")) ++ listed (field j as_str error (ascii "code"))

  -- The message and the names that `decode` reads off a body.
  abbrev pub words : Text → Text × List Text
  words raw =
      let plain : Text × List Text =
        (take_chars max_raw_message (trim (from_utf8_lossy raw)), []) in
      elim (parse_object j raw) [
        | err e ↦ plain
        | ok root ↦ elim (error_document root) [
          | none ↦ plain
          | some message ↦ (message, error_names root)
        ]
      ]

  unfoldable pub decode_error : Option ℕ → Text → Failure
  unfolding parse_object error_document error_names failure_kind failure
  decode_error status raw =
      let (message, names) = words raw in failure (failure_kind status message names) message
