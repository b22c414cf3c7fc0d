-- ===== src/Crews/Tests.antt =====
-- The theorems about the crews at concrete inputs.
use ai_dev_swarm.Common.{◌≡◌, ◌++◌, Option, some, none, text, Text}
use ai_dev_swarm.Schemas.Project.{ProjectState, MilestoneState}
use ai_dev_swarm.Schemas.Exceptions.{ok, raise, foreign}
use ai_dev_swarm.Schemas.Replanner.{noop}
use ai_dev_swarm.Samples.{ascii, settings, project, milestone, running}
use ai_dev_swarm.Spend.{Prices}
use ai_dev_swarm.Crews.Replanning
use ai_dev_swarm.Crews.Replanning.{ReplanningDeps, words}
use ai_dev_swarm.Crews.Diagnostician.{DiagnosticianDeps, diagnose}
use ai_dev_swarm.Crews.Calm.{Short, diagnose-Short}

abbrev prices : Prices
prices = record { characters = ascii; cost_per_token = λ model prompt completion. none }

-- A replanner whose model answers what cannot be read, and a diagnostician whose model answers.
abbrev replanner : ReplanningDeps Text
replanner = record {
  settings = settings;
  prices = prices;
  architect_template = text "You plan.";
  pm_template = text "You own the scope.";
  render = λ template notes. template ++ notes;
  spec_json = λ spec. text "{}";
  publish = λ e w. w;
  loads_lenient = λ t. raise (foreign (text "JSONDecodeError") t);
  validate_python = λ j. ok noop;
  kickoff = λ architect pm context w.
      (ok (record { usage = some (10, 5); raw = words (text "Sorry, no plan.") }), w);
}

abbrev diagnostician : DiagnosticianDeps
diagnostician = record {
  settings = settings;
  prices = prices;
  spec_json = λ spec. text "{}";
  publish = λ e w. w;
  kickoff = λ context w. (ok (record { usage = some (10, 5); raw = some (text "Import it.") }), w);
}

diagnose-Short_example :
    (o : Option Text) × ((diagnose diagnostician
        (project 1 ProjectState.building)
        (milestone 11 1 MilestoneState.pending)
        (text "E501")
        running).0
      ≡ ok o)
    × Short o
diagnose-Short_example =
    diagnose-Short diagnostician (project 1 ProjectState.building)
      (milestone 11 1 MilestoneState.pending) (text "E501") running
