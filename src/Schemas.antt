-- ===== src/Schemas.antt =====
-- The package src/aidevswarm/schemas: the vocabulary that every other module shares.
pub mod Project
pub mod Milestone
pub mod Idea
pub mod Exceptions
pub mod Replanner
pub mod Transitions
pub mod Command
