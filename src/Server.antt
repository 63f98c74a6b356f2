-- ===== src/Server.antt =====
-- internal/server: the attached terminal and the daemon's connections.
pub mod Stream
pub mod Frames
pub mod Switch
pub mod Input
pub mod Requests
pub mod Handoff
pub mod Prefix
pub mod Uploads
pub mod StatusBar
pub mod MenuLines
mod Tests
mod FrameTests
mod SwitchTests
mod InputTests
mod UploadTests
mod HandoffTests
mod RequestTests
mod StatusBarTests
