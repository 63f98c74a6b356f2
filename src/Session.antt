-- ===== src/Session.antt =====
-- internal/session: what the daemon keeps for each session.
pub mod Ring
pub mod Subscriber
pub mod History
pub mod Transcript
pub mod Live
pub mod Manager
pub mod Processes
mod Tests
mod ProcessTests
mod ManagerTests
