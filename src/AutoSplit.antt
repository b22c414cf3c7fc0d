-- ===== src/AutoSplit.antt =====
-- orchestrator/auto_split.py: the mechanical split of a milestone whose last sessions ran over.
pub mod Lineage
mod Tests
use ai_dev_swarm.Common.{
  ℕ, ◌+◌, ◌/◌, max, ltb, ◌==◌, Bool, true, false, not, ◌&&◌, ◌||◌, List, [], ◌∷◌, ◌++◌, Option,
  none, some, Text, text, contains, length, take, drop, if◌then◌else◌,
}
use ai_dev_swarm.Settings.{Settings}
use ai_dev_swarm.Schemas.Milestone.{Milestone, MilestoneSpec}
use ai_dev_swarm.Schemas.Replanner.{ReplannerAction, split}
use ai_dev_swarm.Store.State.{World, MilestoneSession}
use ai_dev_swarm.Store.Tokens.{latest_for}

-- `_AUTO_SPLIT_MARKER`
abbrev pub auto_split_marker : Text
auto_split_marker = text "[AUTO-SPLIT"

abbrev pub developer : Text
developer = text "Developer"

abbrev pub tester : Text
tester = text "Tester"

-- One round of the loop over the roles: the worst turns and cost so far.
abbrev pub worse : ℕ × ℕ → Option MilestoneSession → ℕ × ℕ
worse worst none = worst
worse (turns, cost) (some prev) = (max turns prev.turns, max cost prev.cost_usd)

unfoldable pub worst_session : Milestone → World → ℕ × ℕ
worst_session m w = worse (worse (0, 0) (latest_for m.id developer w)) (latest_for m.id tester w)

abbrev pub over_caps : Settings → ℕ × ℕ → Bool
over_caps c (turns, cost) =
    not (turns == 0 && cost == 0)
    && (ltb c.auto_split_max_turns turns || ltb c.auto_split_max_cost_usd cost)

-- `technical_note + (" " if technical_note else "")`
abbrev pub note_prefix : Text → Text
note_prefix [] = []
note_prefix (c ∷ note) = (c ∷ note) ++ text " "

abbrev pub middle : ℕ → ℕ
middle n = (n + 1) / 2

abbrev pub first_half : MilestoneSpec → MilestoneSpec
first_half spec = record {
  title = spec.title ++ text " (part 1)";
  description = spec.description;
  acceptance_criteria = take (middle (length spec.acceptance_criteria)) spec.acceptance_criteria;
  technical_note = note_prefix spec.technical_note ++ text "[AUTO-SPLIT 1/2]";
}

abbrev pub second_half : MilestoneSpec → MilestoneSpec
second_half spec = record {
  title = spec.title ++ text " (part 2)";
  description = spec.description;
  acceptance_criteria = drop (middle (length spec.acceptance_criteria)) spec.acceptance_criteria;
  technical_note = note_prefix spec.technical_note ++ text "[AUTO-SPLIT 2/2]";
}

unfoldable pub bisect_acceptance_criteria : MilestoneSpec → List MilestoneSpec
bisect_acceptance_criteria spec = first_half spec ∷ second_half spec ∷ []

-- `AutoSplitPredictor.predict`
unfoldable pub predict : Settings → World → Milestone → Option ReplannerAction
predict c w m =
    if not (over_caps c (worst_session m w))
    then none
    else if contains auto_split_marker m.spec.technical_note
    then none
    else if ltb (length m.spec.acceptance_criteria) 2
    then none
    else some (split m.id (bisect_acceptance_criteria m.spec))
