-- ===== src/Tunnel.antt =====
-- internal/tunnel: what travels inside one multiplexed stream.
pub mod Frame
