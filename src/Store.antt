-- ===== src/Store.antt =====
-- The state that the orchestrator's components share, and the repositories over it.
pub mod State
pub mod Action
pub mod Projects
pub mod Milestones
pub mod Tokens
pub mod Sessions
