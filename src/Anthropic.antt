-- ===== src/Anthropic.antt =====
-- src/anthropic: the Messages API's wire format.
pub mod Errors
pub mod Stream
pub mod Messages
pub mod Decode
pub mod Usage
