-- ===== src/Routing.antt =====
-- src/routing: which backend a model name goes to.
pub mod Registry
pub mod Live
