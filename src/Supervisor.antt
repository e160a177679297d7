-- ===== src/Supervisor.antt =====
-- internal/supervisor: the process inside a workspace's task that owns its sessions, by the concerns its
-- files are named for.
pub mod Environ
pub mod Args
pub mod Activity
pub mod Members
pub mod Files
pub mod Processes
pub mod Sessions
mod Tests
