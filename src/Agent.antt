-- ===== src/Agent.antt =====
-- internal/agent: what Falkn knows of each coding agent.
pub mod Launch
pub mod State
mod Tests
