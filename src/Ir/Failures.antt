-- ===== src/Ir/Failures.antt =====
-- src/ir/failure.rs: a failure on its way between wire formats.
use anthroxy.Prelude.{
  ℕ, ◌+◌, ◌==◌, Bool, true, false, ◌&&◌, ◌||◌, List, [], ◌∷◌, ◌++◌, leb, any, if◌then◌else◌, Text,
  ascii, none, some, contains, before_char,
}

pub data FailureKind : Type 0 where
  invalid_request context_exceeded authentication permission not_found request_too_large rate_limit
        overloaded upstream :
      FailureKind

pub FailureKind-discrete : Discrete FailureKind
FailureKind-discrete = hlevel

-- `FailureKind::from_status`
unfoldable pub from_status : ℕ → FailureKind
from_status status =
    if status == 400
    then invalid_request
    else if status == 401
    then authentication
    else if status == 403
    then permission
    else if status == 404
    then not_found
    else if status == 413
    then request_too_large
    else if status == 429
    then rate_limit
    else if status == 529
    then overloaded
    else upstream

-- `FailureKind::is_unspecific`
unfoldable pub is_unspecific : FailureKind → Bool
is_unspecific upstream = true
is_unspecific _ = false

abbrev is_digit : ℕ → Bool
is_digit c = leb b'0' c && leb c b'9'

abbrev is_upper : ℕ → Bool
is_upper c = leb b'A' c && leb c b'Z'

abbrev is_lower : ℕ → Bool
is_lower c = leb b'a' c && leb c b'z'

-- `char::is_ascii_alphanumeric` at a byte: no byte of a character outside ASCII is below 128.
abbrev is_ascii_alphanumeric : ℕ → Bool
is_ascii_alphanumeric c = is_digit c || (is_upper c || is_lower c)

abbrev to_ascii_lowercase : ℕ → ℕ
to_ascii_lowercase c = if is_upper c then c + 32 else c

unfoldable pub squashed : Text → Text
squashed [] = []
squashed (c ∷ t) =
    let rest = squashed t in if is_ascii_alphanumeric c then to_ascii_lowercase c ∷ rest else rest

abbrev pub context_exceeded_needles : List Text
context_exceeded_needles =
    ascii "context_length_exceeded"
    ∷ ascii "exceed_context_size"
    ∷ ascii "exceeds the available context size"
    ∷ ascii "maximum context length"
    ∷ ascii "context size has been exceeded"
    ∷ ascii "context window exceeded"
    ∷ []

unfoldable pub says_context_exceeded : Text → Bool
unfolding squashed contains
says_context_exceeded t =
    any (λ needle. contains (squashed needle) (squashed t)) context_exceeded_needles

abbrev pub max_message_chars : ℕ
max_message_chars = 4096

-- U+2026 in UTF-8.
abbrev pub ellipsis : Text
ellipsis = 0xe2 ∷ 0x80 ∷ 0xa6 ∷ []

pub record Failure : Type 0 where
  pub kind : FailureKind
  pub message : Text

-- `Failure::new`
unfoldable pub failure : FailureKind → Text → Failure
unfolding before_char
failure kind message = record {
  kind = kind;
  message = elim (before_char max_message_chars message) [
    | none ↦ message
    | some kept ↦ kept ++ ellipsis
  ];
}

-- `Failure::upstream`
unfoldable pub upstream_failure : Text → Failure
unfolding failure
upstream_failure message = failure upstream message
