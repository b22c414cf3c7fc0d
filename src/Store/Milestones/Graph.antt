-- ===== src/Store/Milestones/Graph.antt =====
-- db/repositories.py: the methods that edit the milestone graph of a project, which are what
-- the replanner's Amend and Split and the consolidation cadence call.
pub mod Ordinals
use ai_dev_swarm.Common.{
  ℕ, ◌+◌, ◌-◌, ◌==◌, ltb, Bool, not, ◌&&◌, List, Option, none, some, text, length, select, ◌++◌,
  if◌then◌else◌,
}
use ai_dev_swarm.Schemas.Milestone.{Milestone, MilestoneSpec}
use ai_dev_swarm.Schemas.Replanner.{Patch}
use ai_dev_swarm.Schemas.Exceptions.{
  Result, ok, raise, milestone_not_found, value_error, validation_error, raise_unless,
}
use ai_dev_swarm.Store.State.{State}
use ai_dev_swarm.Store.Action.{Action, ◌>>=◌, ◌>>◌, pure, gets, lift, modify, or_raise}
use ai_dev_swarm.Store.Milestones.{
  has_id, row, update_rows, insert_row, insert_rows, transaction, write_row,
}

abbrev pub or_else {ℓ} : {A : Type ℓ} → Option A → A → A
or_else none a = a
or_else (some b) a = b

-- `MilestoneSpec.model_validate({**existing_spec.model_dump(), **patch})`
unfoldable pub merge : MilestoneSpec → Patch → Result MilestoneSpec
merge spec patch =
    if patch.malformed
    then raise validation_error
    else ok (record {
      title = or_else patch.title spec.title;
      description = or_else patch.description spec.description;
      acceptance_criteria = or_else patch.acceptance_criteria spec.acceptance_criteria;
      technical_note = or_else patch.technical_note spec.technical_note;
    })

unfoldable pub update_spec : ℕ → Patch → Action Milestone
update_spec i patch = do
  found ← gets (row i)
  current ← lift (or_raise found (milestone_not_found i))
  new_spec ← lift (merge current.spec patch)
  now ← gets (λ s. s.now)
  write_row i (λ m. record m { spec = new_spec; updated_at = now })

-- `SET ordinal = ordinal + by WHERE project_id = ... AND ordinal > after`
abbrev pub later_row : ℕ → ℕ → Milestone → Bool
later_row project_id after m = m.project_id == project_id && ltb after m.ordinal

abbrev pub bump : ℕ → ℕ → Milestone → Milestone
bump by now m = record m { ordinal = m.ordinal + by; updated_at = now }

unfoldable pub shift_later : ℕ → ℕ → ℕ → Action (Unit {0})
shift_later project_id after by = do
  now ← gets (λ s. s.now)
  modify (update_rows (later_row project_id after) (bump by now))

-- `DELETE FROM milestones WHERE id = %s`
unfoldable pub delete_row : ℕ → Action (Unit {0})
delete_row i = modify λ s. record s { milestones = select (λ m. not (has_id i m)) s.milestones }

unfoldable pub replace_with : ℕ → List MilestoneSpec → Action (List Milestone)
replace_with i into = do
  lift (
      raise_unless (ltb 1 (length into))
        (value_error (text "replace_with requires at least 2 child specs")))
  transaction (do
    found ← gets (row i)
    parent ← lift (or_raise found (milestone_not_found i))
    shift_later parent.project_id parent.ordinal (length into - 1)
    delete_row i
    insert_rows parent.project_id parent.ordinal into)

unfoldable pub insert_after : ℕ → MilestoneSpec → Action Milestone
insert_after i spec = transaction (do
  found ← gets (row i)
  anchor ← lift (or_raise found (milestone_not_found i))
  shift_later anchor.project_id anchor.ordinal 1
  insert_row anchor.project_id (anchor.ordinal + 1) spec)
