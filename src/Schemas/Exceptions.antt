-- ===== src/Schemas/Exceptions.antt =====
-- The exceptions that the modelled code raises, and the result of a Python call.
use ai_dev_swarm.Common.{ℕ, Bool, Text, if◌then◌else◌}
use ai_dev_swarm.Schemas.Project.{ProjectState, MilestoneState}

-- `IllegalTransition`, `LookupError`, `ValueError`, the database's and pydantic's errors,
-- `BudgetExceeded`, and any exception of a collaborator, by its type's name and its message.
pub data Exception : Type 0 where
  illegal_project : (src dst : ProjectState) → Exception
  illegal_milestone : (src dst : MilestoneState) → Exception
  project_not_found milestone_not_found : (id : ℕ) → Exception
  value_error : (message : Text) → Exception
  unique_violation validation_error budget_exceeded : Exception
  foreign : (type_name message : Text) → Exception

pub data Result {ℓ} (A : Type ℓ) : Type ℓ where
  ok : A → Result A
  raise : Exception → Result A

abbrev pub raise_unless : Bool → Exception → Result (Unit {0})
raise_unless b e = if b then ok tt else raise e
