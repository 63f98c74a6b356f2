-- ===== src/Session/History.antt =====
-- internal/session/screen_history.go: the journal of the rows that leave an alternate screen.
pub mod Sequence
pub mod Journal
