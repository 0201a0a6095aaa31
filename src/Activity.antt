-- ===== src/Activity.antt =====
-- src/activity: what the router is doing and has done.
pub mod Names
pub mod Exchanges
