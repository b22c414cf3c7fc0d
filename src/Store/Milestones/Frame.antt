-- ===== src/Store/Milestones/Frame.antt =====
-- No method of `PsycopgMilestoneRepo` changes the state of a project.
use ai_dev_swarm.Common.{
  ℕ, Bool, true, false, Option, refl, List, [], ◌∷◌, Text, ◌+◌, if◌then◌else◌,
}
use ai_dev_swarm.Schemas.Project.{MilestoneState}
use ai_dev_swarm.Schemas.Milestone.{Milestone, MilestoneSpec}
use ai_dev_swarm.Schemas.Replanner.{Patch}
use ai_dev_swarm.Schemas.Exceptions.{Exception, Result, ok, raise}
use ai_dev_swarm.Store.State.{State}
use ai_dev_swarm.Store.Action.{Action, modify}
use ai_dev_swarm.Store.Action.Keeps.{Rel, Keeps, keeps_rules}
use ai_dev_swarm.Store.Milestones
use ai_dev_swarm.Store.Milestones.{
  transaction, settle, unique_ordinals, update_rows, insert_row, insert_rows, create_many,
  list_for_project, next_pending, lock_current_state, write_row, record_attempt, reset_retry_count,
}
use ai_dev_swarm.Store.Milestones.Graph.{
  update_spec, shift_later, delete_row, replace_with, insert_after,
}
use ai_dev_swarm.Store.Projects.Rows.{same_states}

-- A transaction commits what its body did, or changes nothing.
pub Keeps-transaction : {A : Type 0} {R : Rel} (m : Action A) → Keeps R m → Keeps R (transaction m)
Keeps-transaction {A} {R} m km = record { at = λ s. settled (m s).0 s (m s).1 (km.at s) }
  where
    committed :
        (b : Bool) (a : A) (s t : State)
        → R.holds s t
        → R.holds s
            (if◌then◌else◌ {A = Result A × State} b
              (ok a, t)
              (raise Exception.unique_violation, s)).1
    committed true a s t h = h
    committed false a s t h = R.same s

    settled : (r : Result A) (s t : State) → R.holds s t → R.holds s (settle r s t).1
    settled (ok a) s t h = committed (unique_ordinals t.milestones) a s t h
    settled (raise e) s t h = R.same s

update_rows-SameStates :
    (p : Milestone → Bool) (f : Milestone → Milestone)
    → Keeps same_states (modify (update_rows p f))
unfolding modify
update_rows-SameStates p f = record { at = λ s i. refl }

insert_row-SameStates :
    (i ordinal : ℕ) (spec : MilestoneSpec) → Keeps same_states (insert_row i ordinal spec)
unfolding insert_row
insert_row-SameStates i ordinal spec = record { at = λ s j. refl }

delete_row-SameStates : (i : ℕ) → Keeps same_states (delete_row i)
unfolding delete_row modify
delete_row-SameStates i = record { at = λ s j. refl }

ruleset row_rules = (
  keeps_rules, Keeps-transaction, update_rows-SameStates, insert_row-SameStates,
  delete_row-SameStates,
)

insert_rows-SameStates :
    (i ordinal : ℕ) (specs : List MilestoneSpec) → Keeps same_states (insert_rows i ordinal specs)
unfolding insert_rows
insert_rows-SameStates i ordinal [] = search row_rules
insert_rows-SameStates i ordinal (spec ∷ specs) =
    let rest = insert_rows-SameStates i (ordinal + 1) specs in search row_rules

pub create_many-SameStates :
    (i : ℕ) (specs : List MilestoneSpec) → Keeps same_states (create_many i specs)
unfolding create_many
create_many-SameStates i specs = search (row_rules, insert_rows-SameStates)

write_row-SameStates : (i : ℕ) (f : Milestone → Milestone) → Keeps same_states (write_row i f)
unfolding write_row
write_row-SameStates i f = search row_rules depth 8

lock-SameStates : (i : ℕ) → Keeps same_states (lock_current_state i)
unfolding lock_current_state
lock-SameStates i = search row_rules depth 8

pub update_state-SameStates :
    (i : ℕ) (st : MilestoneState) → Keeps same_states (Milestones.update_state i st)
unfolding Milestones.update_state
update_state-SameStates i st = search (row_rules, write_row-SameStates, lock-SameStates) depth 8

pub record_attempt-SameStates :
    (i : ℕ) (success : Bool) (hash : Option Text)
    → Keeps same_states (record_attempt i success hash)
unfolding record_attempt
record_attempt-SameStates i success hash =
    search (row_rules, write_row-SameStates, lock-SameStates) depth 8

pub list_for_project-SameStates : (i : ℕ) → Keeps same_states (list_for_project i)
unfolding list_for_project
list_for_project-SameStates i = search row_rules

pub next_pending-SameStates : (i : ℕ) → Keeps same_states (next_pending i)
unfolding next_pending
next_pending-SameStates i = search row_rules

pub update_spec-SameStates : (i : ℕ) (patch : Patch) → Keeps same_states (update_spec i patch)
unfolding update_spec
update_spec-SameStates i patch = search (row_rules, write_row-SameStates) depth 10

shift_later-SameStates : (i after by : ℕ) → Keeps same_states (shift_later i after by)
unfolding shift_later
shift_later-SameStates i after by = search row_rules

pub replace_with-SameStates :
    (i : ℕ) (into : List MilestoneSpec) → Keeps same_states (replace_with i into)
unfolding replace_with
replace_with-SameStates i into =
    search (row_rules, shift_later-SameStates, insert_rows-SameStates) depth 14

pub insert_after-SameStates :
    (i : ℕ) (spec : MilestoneSpec) → Keeps same_states (insert_after i spec)
unfolding insert_after
insert_after-SameStates i spec = search (row_rules, shift_later-SameStates) depth 12

pub reset_retry_count-SameStates : (i : ℕ) → Keeps same_states (reset_retry_count i)
unfolding reset_retry_count
reset_retry_count-SameStates i = search row_rules depth 8

pub ruleset milestone_rules = (
  create_many-SameStates, update_state-SameStates, record_attempt-SameStates,
  list_for_project-SameStates, next_pending-SameStates, update_spec-SameStates,
  replace_with-SameStates, insert_after-SameStates, reset_retry_count-SameStates,
)
