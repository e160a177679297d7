-- ===== src/Pty.antt =====
-- internal/ptysession: the PTYs inside one workspace task.
pub mod Ring
pub mod Modes
pub mod Attachment
pub mod Session
pub mod Manager
mod Tests
