-- ===== src/Ir.antt =====
-- src/ir: the events, failures and counts that every wire format is translated to and from.
pub mod Failures
pub mod Messages
pub mod Requests
pub use Failures.{
  FailureKind, invalid_request, context_exceeded, authentication, permission, not_found,
  request_too_large, rate_limit, overloaded, upstream, Failure,
}
use anthroxy.Prelude.{ℕ, Bool, true, false, Text}

-- ir/event.rs
pub data StopReason : Type 0 where
  end_turn max_tokens tool_use refusal : StopReason

pub StopReason-discrete : Discrete StopReason
StopReason-discrete = hlevel

-- `StopReason::resolve`
unfoldable pub resolve : StopReason → Bool → StopReason
resolve end_turn true = tool_use
resolve other _ = other

-- The counts are `u64`.
pub record Usage : Type 0 where
  pub input_tokens : ℕ
  pub output_tokens : ℕ
  pub cache_read_tokens : ℕ
  pub cache_creation_tokens : ℕ
  pub cache_reported : Bool
  pub thinking_tokens : ℕ

-- `Usage::default()`
abbrev pub no_usage : Usage
no_usage = record {
  input_tokens = 0;
  output_tokens = 0;
  cache_read_tokens = 0;
  cache_creation_tokens = 0;
  cache_reported = false;
  thinking_tokens = 0;
}

pub data Event : Type 0 where
  start : Text → Text → Event
  thinking_delta text_delta : Text → Event
  -- index, id, name
  tool_call_start : ℕ → Text → Text → Event
  -- index, arguments
  tool_call_delta : ℕ → Text → Event
  finish : StopReason → Event
  usage : Usage → Event
  error : Failure → Event
  done : Event
