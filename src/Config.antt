-- ===== src/Config.antt =====
-- src/config: what the configuration says.
pub mod DropHeaders
pub mod Templates
