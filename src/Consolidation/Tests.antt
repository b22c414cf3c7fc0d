-- ===== src/Consolidation/Tests.antt =====
-- The theorems about the cadence at a concrete milestone list.
use ai_dev_swarm.Common.{◌≡◌, refl, true, false, [], ◌∷◌, any}
use ai_dev_swarm.Schemas.Project.{MilestoneState}
use ai_dev_swarm.Schemas.Milestone.{Milestone}
use ai_dev_swarm.Samples.{milestone}
use ai_dev_swarm.Consolidation.{
  is_consolidation, should_insert_consolidation, build_consolidation_spec, in_flight,
}
use ai_dev_swarm.Consolidation.Cadence.{one_at_a_time, due_after_last}

abbrev tidy : MilestoneState → Milestone
tidy st = record (milestone 20 1 st) { spec = build_consolidation_spec }

abbrev finished : Milestone
finished = milestone 21 2 MilestoneState.done

one_at_a_time_example :
    should_insert_consolidation 1 (finished ∷ tidy MilestoneState.pending ∷ finished ∷ []) ≡ false
one_at_a_time_example =
    one_at_a_time 1 (finished ∷ []) (finished ∷ []) (tidy MilestoneState.pending) refl refl

is_tidy : is_consolidation (tidy MilestoneState.done) ≡ true
unfolding is_consolidation build_consolidation_spec
is_tidy = refl

none_tidy : any is_consolidation (finished ∷ finished ∷ []) ≡ false
unfolding is_consolidation
none_tidy = refl

none_flying : any in_flight (finished ∷ tidy MilestoneState.done ∷ finished ∷ finished ∷ []) ≡ false
unfolding is_consolidation build_consolidation_spec
none_flying = refl

due_after_last_example :
    should_insert_consolidation 2 (finished ∷ tidy MilestoneState.done ∷ finished ∷ finished ∷ [])
    ≡ true
due_after_last_example =
    due_after_last 1 (finished ∷ []) (finished ∷ finished ∷ []) (tidy MilestoneState.done) is_tidy
      none_tidy none_flying
