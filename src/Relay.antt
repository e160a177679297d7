-- ===== src/Relay.antt =====
-- internal/relay: where a client's connection meets its workspace's tunnel.
pub mod Nonces
mod Tests
