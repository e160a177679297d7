-- ===== src/Mgmt.antt =====
-- internal/mgmtapi: the control plane's decisions about workspaces and their tasks.
pub mod Rows
pub mod Activity
pub mod Admission
pub mod Task
pub mod Reaper
pub mod Placement
pub mod Access
pub mod Uids
mod Tests
