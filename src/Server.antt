-- ===== src/Server.antt =====
-- src/server: what answers a client.
pub mod Ping
