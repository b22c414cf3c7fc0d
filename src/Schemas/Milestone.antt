-- ===== src/Schemas/Milestone.antt =====
-- schemas/milestone.py: specs, the milestone row, and what a build returns.
use ai_dev_swarm.Common.{ℕ, Bool, List, Option, Text}
use ai_dev_swarm.Schemas.Project.{MilestoneState}

pub record AcceptanceCriterion : Type 0 where
  pub description : Text
  pub verifier : Text

pub record MilestoneSpec : Type 0 where
  pub title : Text
  pub description : Text
  pub acceptance_criteria : List AcceptanceCriterion
  pub technical_note : Text

pub record Milestone : Type 0 where
  pub id : ℕ
  pub project_id : ℕ
  pub ordinal : ℕ
  pub title : Text
  pub spec : MilestoneSpec
  pub state : MilestoneState
  pub retry_count : ℕ
  pub commit_hash : Option Text
  pub created_at : ℕ
  pub updated_at : ℕ

pub record MilestoneBuildResult : Type 0 where
  pub success : Bool
  pub commit_hash : Option Text
  pub summary : Text
  pub artifacts : List Text
  pub tokens_used : ℕ
  pub failure_reason : Option Text
