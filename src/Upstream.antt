-- ===== src/Upstream.antt =====
-- src/upstream: requests to backends, with retry, credential refresh and the clocks on a body.
pub mod Retry
pub mod Send
pub mod Bodies
pub mod Headers
pub mod Timed
