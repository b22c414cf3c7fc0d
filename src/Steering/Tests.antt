-- ===== src/Steering/Tests.antt =====
-- The theorems about the notes at concrete inputs.
use ai_dev_swarm.Common.{◌≡◌, refl, [], ◌∷◌, none, text}
use ai_dev_swarm.Schemas.Exceptions.{ok}
use ai_dev_swarm.Store.State.{World, SteeringNote}
use ai_dev_swarm.Samples.{world}
use ai_dev_swarm.Steering.{pull_unconsumed, candidates}
use ai_dev_swarm.Steering.Once.{pull_once, pull_for_others}

abbrev note : SteeringNote
note = record {
  id = 7;
  project_id = 1;
  body = text "use sqlite";
  author = text "human";
  target_role = none;
  created_at = 3;
}

abbrev noted : World
noted = record world { notes = note ∷ [] }

first_pull : (pull_unconsumed 1 (text "Developer") noted).0 ≡ ok (text "use sqlite" ∷ [])
unfolding pull_unconsumed candidates
first_pull = refl

pull_once_example :
    pull_unconsumed 1 (text "Developer") (pull_unconsumed 1 (text "Developer") noted).1
    ≡ (ok [], (pull_unconsumed 1 (text "Developer") noted).1)
pull_once_example = pull_once 1 (text "Developer") noted refl

pull_for_others_example :
    candidates 1 (text "Tester") (pull_unconsumed 1 (text "Developer") noted).1
    ≡ candidates 1 (text "Tester") noted
pull_for_others_example = pull_for_others 1 (text "Developer") (text "Tester") noted refl
