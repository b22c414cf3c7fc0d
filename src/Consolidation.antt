-- ===== src/Consolidation.antt =====
-- orchestrator/consolidation.py: the cadence of the milestones that only tidy and verify.
pub mod Cadence
mod Tests
use ai_dev_swarm.Common.{
  ℕ, zero, suc, ◌+◌, ◌%◌, ltb, ◌==◌, Bool, true, false, not, ◌&&◌, List, [], ◌∷◌, ◌++◌, Text, text,
  contains, any, if◌then◌else◌,
}
use ai_dev_swarm.Schemas.Project.{MilestoneState, milestone_state_eq}
use ai_dev_swarm.Schemas.Milestone.{Milestone, MilestoneSpec}

abbrev pub consolidation_marker : Text
consolidation_marker = text "[CONSOLIDATION]"

unfoldable pub is_consolidation : Milestone → Bool
is_consolidation m = contains consolidation_marker m.spec.technical_note

abbrev pub is_done : Milestone → Bool
is_done m = milestone_state_eq m.state MilestoneState.done

abbrev pub in_flight : Milestone → Bool
in_flight m = is_consolidation m && not (is_done m)

-- The loop: the milestones done since the last consolidation, from a count.
unfoldable pub done_since : ℕ → List Milestone → ℕ
done_since count [] = count
done_since count (m ∷ ms) =
    done_since (if is_consolidation m then 0 else if is_done m then count + 1 else count) ms

unfoldable pub should_insert_consolidation : ℕ → List Milestone → Bool
should_insert_consolidation every ms =
    if every == 0
    then false
    else if any in_flight ms
    then false
    else (let count = done_since 0 ms in ltb 0 count && count % every == 0)

unfoldable pub build_consolidation_spec : MilestoneSpec
build_consolidation_spec = record {
  title = text "Consolidation pass";
  description =
      text
        "Read every artefact added since the last consolidation. Refactor for cohesion + readability; tighten types; update the README and any ADRs; run `make verify`. DO NOT add new features or new public APIs.";
  acceptance_criteria =
      record { description = text "`make verify` exits 0"; verifier = text "lint" }
      ∷ record {
        description = text "No new public functions, classes, or CLI args";
        verifier = text "manual";
      }
      ∷ record {
        description = text "README + relevant ADRs reflect current behaviour";
        verifier = text "manual";
      }
      ∷ [];
  technical_note =
      consolidation_marker ++ text " Tidy + verify; the Reviewer rejects feature-adds.";
}
