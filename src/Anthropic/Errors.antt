-- ===== src/Anthropic/Errors.antt =====
-- src/anthropic/error.rs: error documents and their types.
use anthroxy.Prelude.{ℕ, ◌++◌, Option, none, some, if◌then◌else◌, Text, ascii, text_eq}
use anthroxy.Ir.{Failure}
use anthroxy.Ir.Failures.{
  FailureKind, invalid_request, context_exceeded, authentication, permission, not_found,
  request_too_large, rate_limit, overloaded, upstream,
}

pub data ErrorType : Type 0 where
  invalid_request_error authentication_error permission_error not_found_error too_large_error
        rate_limit_error api_error overloaded_error :
      ErrorType

-- `ErrorType::kind`
unfoldable pub kind : ErrorType → FailureKind
kind invalid_request_error = invalid_request
kind authentication_error = authentication
kind permission_error = permission
kind not_found_error = not_found
kind too_large_error = request_too_large
kind rate_limit_error = rate_limit
kind api_error = upstream
kind overloaded_error = overloaded

-- `ErrorType::from_kind`
unfoldable pub from_kind : FailureKind → ErrorType
from_kind invalid_request = invalid_request_error
from_kind context_exceeded = invalid_request_error
from_kind authentication = authentication_error
from_kind permission = permission_error
from_kind not_found = not_found_error
from_kind request_too_large = too_large_error
from_kind rate_limit = rate_limit_error
from_kind overloaded = overloaded_error
from_kind upstream = api_error

-- `ErrorType::status`
unfoldable pub status : ErrorType → ℕ
status invalid_request_error = 400
status authentication_error = 401
status permission_error = 403
status not_found_error = 404
status too_large_error = 413
status rate_limit_error = 429
status api_error = 500
status overloaded_error = 529

-- `ErrorType::from_name`
unfoldable pub from_name : Text → Option ErrorType
unfolding text_eq
from_name name =
    if text_eq name (ascii "invalid_request_error")
    then some invalid_request_error
    else if text_eq name (ascii "authentication_error")
    then some authentication_error
    else if text_eq name (ascii "permission_error")
    then some permission_error
    else if text_eq name (ascii "not_found_error")
    then some not_found_error
    else if text_eq name (ascii "request_too_large")
    then some too_large_error
    else if text_eq name (ascii "rate_limit_error")
    then some rate_limit_error
    else if text_eq name (ascii "api_error")
    then some api_error
    else if text_eq name (ascii "overloaded_error")
    then some overloaded_error
    else none

-- The names that `#[serde(rename_all = "snake_case")]` gives the variants.
unfoldable pub name : ErrorType → Text
name invalid_request_error = ascii "invalid_request_error"
name authentication_error = ascii "authentication_error"
name permission_error = ascii "permission_error"
name not_found_error = ascii "not_found_error"
name too_large_error = ascii "request_too_large"
name rate_limit_error = ascii "rate_limit_error"
name api_error = ascii "api_error"
name overloaded_error = ascii "overloaded_error"

pub record ErrorDetail : Type 0 where
  pub error_type : ErrorType
  pub message : Text

unfoldable pub prompt_too_long : Text → Text
prompt_too_long message = ascii "prompt is too long: " ++ message

abbrev worded : FailureKind → Text → Text
worded context_exceeded message = prompt_too_long message
worded _ message = message

-- `ErrorDetail::from_failure`
unfoldable pub detail_of : Failure → ErrorDetail
unfolding from_kind prompt_too_long
detail_of f = record { error_type = from_kind f.kind; message = worded f.kind f.message }
