-- ===== src/Schemas/Replanner.antt =====
-- schemas/replanner.py: the one action that ends a replanning pass.
use ai_dev_swarm.Common.{ℕ, Bool, List, Option, Text}
use ai_dev_swarm.Schemas.Milestone.{AcceptanceCriterion, MilestoneSpec}

-- An `Amend` patch: the fields of the spec that it gives, and whether it also has a key that
-- the spec does not declare or a value of a wrong type, which validation rejects.
pub record Patch : Type 0 where
  pub title : Option Text
  pub description : Option Text
  pub acceptance_criteria : Option (List AcceptanceCriterion)
  pub technical_note : Option Text
  pub malformed : Bool

pub data ReplannerAction : Type 0 where
  noop : ReplannerAction
  amend : (milestone_id : ℕ) (patch : Patch) → ReplannerAction
  split : (milestone_id : ℕ) (into : List MilestoneSpec) → ReplannerAction
  escalate : (reason : Text) (freeze : Bool) → ReplannerAction
