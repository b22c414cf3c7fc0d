-- ===== src/Ideation/Tests.antt =====
-- The theorems about ideation at concrete inputs.
use ai_dev_swarm.Common.{ℕ, ◌+◌, ◌*◌, ◌/◌, false, [], ◌∷◌, none, some, text, Text}
use ai_dev_swarm.Schemas.Exceptions.{ok}
use ai_dev_swarm.Schemas.Project.{ProjectState}
use ai_dev_swarm.Store.State.{State}
use ai_dev_swarm.Samples.{ascii, settings, project, state}
use ai_dev_swarm.Ideation.Crew.{Doubles, IdeationDeps, Entry}
use ai_dev_swarm.Ideation.Rounds.{run_ideation_once}
use ai_dev_swarm.Ideation.Gate.{IdeatedBy, run_ideation_once-Ideated}

-- Numbers of hundredths.
abbrev hundredths : Doubles ℕ
hundredths = record {
  hundredths = λ n. n;
  times = λ n d. n * d;
  plus = λ a b. a + b;
  round = λ d. d / 100;
}

abbrev entry : Text → ℕ → Entry
entry title score = record {
  idea = record {
    title = title;
    summary = text "for small teams";
    rationale = text "useful";
    stack = [];
    tags = [];
  };
  scores = record {
    depth_ambition = score;
    usefulness_niche = score;
    novelty = score;
    decomposability = score;
    buildability = score;
  };
  rejected_reason = none;
}

-- A crew that proposes three ideas, and searches that find nothing.
abbrev crew : IdeationDeps ℕ
crew = record {
  settings = settings;
  doubles = hundredths;
  prices = record { characters = ascii; cost_per_token = λ model prompt completion. none };
  kickoff = λ w. (
    ok (record {
      usage = some (1000, 200);
      entries = some (
          some (entry (text "Log viewer") 60)
          ∷ none
          ∷ some (entry (text "Chess tutor") 80)
          ∷ some (entry (text "Diff tool") 90)
          ∷ []);
    }),
    w,
  );
  search = λ idea w. ([], w);
  database = λ w. (ok tt, w);
}

abbrev idle : State
idle = state (project 1 ProjectState.done ∷ []) []

run_ideation_once-Ideated_example : IdeatedBy crew false idle (run_ideation_once crew false idle).1
run_ideation_once-Ideated_example = run_ideation_once-Ideated crew false idle
