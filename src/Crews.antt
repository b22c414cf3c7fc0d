-- ===== src/Crews.antt =====
-- crews/: the planning crew, the replanning crew and the diagnostician.
pub mod Planning
pub mod Replanning
pub mod Diagnostician
pub mod Calm
mod Tests
