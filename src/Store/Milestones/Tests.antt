-- ===== src/Store/Milestones/Tests.antt =====
-- The theorems about the milestones at concrete inputs.
use ai_dev_swarm.Common.{◌≡◌, refl, true, List, [], ◌∷◌, none, arith}
use ai_dev_swarm.Schemas.Project.{MilestoneState}
use ai_dev_swarm.Schemas.Milestone.{Milestone}
use ai_dev_swarm.Schemas.Exceptions.{ok}
use ai_dev_swarm.Store.Action.Keeps.{Keeps}
use ai_dev_swarm.Samples.{spec, milestone, running}
use ai_dev_swarm.Store.Milestones.{
  new_row, unique_ordinals, update_state, record_attempt, requeue_stale_building, reset_retry_count,
  next_row,
}
use ai_dev_swarm.Store.Milestones.Finished.{finished, finished_stays}
use ai_dev_swarm.Store.Milestones.Next.{IsNext, next_row-IsNext}
use ai_dev_swarm.Store.Milestones.Graph.{insert_after, replace_with}
use ai_dev_swarm.Store.Milestones.Graph.Ordinals.{insert_after_commits, replace_with_commits}

finished_stays_example :
    Keeps finished (update_state 10 MilestoneState.building)
    × Keeps finished (record_attempt 10 true none)
    × Keeps finished requeue_stale_building
    × Keeps finished (reset_retry_count 10)
finished_stays_example = finished_stays 10 MilestoneState.building true none

next_row-IsNext_example : IsNext 1 running.milestones (next_row 1 running)
next_row-IsNext_example = next_row-IsNext 1 running

is_unique : unique_ordinals running.milestones ≡ true
unfolding unique_ordinals
is_unique = refl

insert_after_commits_example :
    ((insert_after 10 spec running).0 ≡ ok (new_row 1 1 spec running))
    × (unique_ordinals (insert_after 10 spec running).1.milestones ≡ true)
insert_after_commits_example =
    insert_after_commits 10 spec running (milestone 10 0 MilestoneState.done) is_unique refl

replace_with_commits_example :
    (ms : List Milestone) × ((replace_with 11 (spec ∷ spec ∷ spec ∷ []) running).0 ≡ ok ms)
    × (unique_ordinals (replace_with 11 (spec ∷ spec ∷ spec ∷ []) running).1.milestones ≡ true)
replace_with_commits_example =
    replace_with_commits 11 (spec ∷ spec ∷ spec ∷ []) running
      (milestone 11 1 MilestoneState.pending) is_unique refl (omega arith)
