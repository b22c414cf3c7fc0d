-- ===== src/AutoSplit/Tests.antt =====
-- The theorems about the split at a concrete milestone.
use ai_dev_swarm.Common.{◌≡◌, refl, List, [], ◌∷◌, some, none, text, All}
use ai_dev_swarm.Schemas.Project.{MilestoneState}
use ai_dev_swarm.Schemas.Milestone.{Milestone, MilestoneSpec}
use ai_dev_swarm.Schemas.Replanner.{split}
use ai_dev_swarm.Store.State.{World}
use ai_dev_swarm.Store.Tokens.{latest_for}
use ai_dev_swarm.Samples.{settings, world, spec, milestone}
use ai_dev_swarm.AutoSplit.{predict, worst_session, bisect_acceptance_criteria, developer}
use ai_dev_swarm.AutoSplit.Lineage.{IsBisection, children_never_split, predict-IsBisection}

-- A session of the developer that took 31 turns, one more than the limit.
abbrev long_session : World
long_session = record world {
  sessions =
      record {
        id = 1;
        milestone_id = 11;
        role = developer;
        session_id = text "s";
        cost_usd = 100;
        turns = 31;
        finished_at = 9;
      }
      ∷ [];
}

abbrev parser : Milestone
parser = milestone 11 1 MilestoneState.pending

abbrev parts : List MilestoneSpec
parts = bisect_acceptance_criteria spec

splits : predict settings long_session parser ≡ some (split 11 parts)
unfolding predict worst_session latest_for bisect_acceptance_criteria
splits = refl

children_never_split_example :
    All
      (λ s. (child : Milestone) → child.spec ≡ s → predict settings long_session child ≡ none)
      parts
children_never_split_example =
    children_never_split settings settings long_session long_session parser 11 parts splits

predict-IsBisection_example :
    (first second : MilestoneSpec) × (split 11 parts ≡ split 11 (first ∷ second ∷ []))
    × IsBisection spec first second
predict-IsBisection_example =
    predict-IsBisection settings long_session parser (split 11 parts) splits
