-- ===== src/Router/Tests.antt =====
-- The theorems about the router at concrete inputs.
use ai_dev_swarm.Common.{refl, [], ◌∷◌, some, none, text, pos}
use ai_dev_swarm.Schemas.Project.{ProjectState}
use ai_dev_swarm.Schemas.Command.{approve}
use ai_dev_swarm.Schemas.Exceptions.{ok}
use ai_dev_swarm.Store.State.{State}
use ai_dev_swarm.Store.Projects.Rows.{state_at}
use ai_dev_swarm.Tick.Hops.{Hop}
use ai_dev_swarm.Samples.{ascii, project, state}
use ai_dev_swarm.Router.{RouterDeps, dispatch}
use ai_dev_swarm.Router.Hops.{dispatch-Hop}

abbrev router : RouterDeps
router = record {
  characters = ascii;
  numbers = record { parse_int = λ t. some (pos 1); parse_float = λ t. none };
  publish_decision = λ i body w. w;
  ideate_runner = λ force w. (ok tt, w);
  show_id = λ i. text "id";
}

-- A project whose plan waits for the operator.
abbrev waits : State
waits = state (project 1 ProjectState.awaiting_approval ∷ []) []

dispatch-Hop_example :
    Hop ProjectState.awaiting_approval (state_at 1 (dispatch router (approve 1) waits).1)
dispatch-Hop_example = dispatch-Hop router (approve 1) waits 1 ProjectState.awaiting_approval refl
