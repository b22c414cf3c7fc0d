-- ===== src/Ideation.antt =====
-- crews/ideation/ and orchestrator/orchestrator.py: where projects come from.
pub mod Tokens
pub mod Novelty
pub mod Crew
pub mod Rounds
pub mod Verdict
pub mod Lookup
pub mod Judged
pub mod Idle
pub mod Gate
mod Tests
