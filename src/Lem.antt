-- ===== src/Lem.antt =====
-- cmd/lem: the command line client.
pub mod Detach
mod Tests
