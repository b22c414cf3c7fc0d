-- ===== src/Schemas/Transitions.antt =====
-- schemas/state_machine.py: the tables of legal transitions and their guards.
pub mod Lifecycle
mod Tests
use ai_dev_swarm.Common.{Bool, true, false, ◌||◌, List, [], ◌∷◌, any, Text}
use ai_dev_swarm.Schemas.Exceptions.{Result, raise_unless, illegal_project, illegal_milestone}
use ai_dev_swarm.Schemas.Project.{
  ProjectState, MilestoneState, project_state_eq, milestone_state_eq,
}

-- `PROJECT_TRANSITIONS[src]`
abbrev pub project_transitions : ProjectState → List ProjectState
project_transitions ProjectState.queued =
    ProjectState.planning ∷ ProjectState.blocked ∷ ProjectState.killed ∷ []
project_transitions ProjectState.planning =
    ProjectState.awaiting_approval ∷ ProjectState.building ∷ ProjectState.blocked
    ∷ ProjectState.killed ∷ []
project_transitions ProjectState.awaiting_approval =
    ProjectState.building ∷ ProjectState.blocked ∷ ProjectState.killed ∷ []
project_transitions ProjectState.building =
    ProjectState.replanning ∷ ProjectState.integration ∷ ProjectState.blocked ∷ ProjectState.killed
    ∷ []
project_transitions ProjectState.replanning =
    ProjectState.building ∷ ProjectState.integration ∷ ProjectState.blocked ∷ ProjectState.killed
    ∷ []
project_transitions ProjectState.integration =
    ProjectState.done ∷ ProjectState.blocked ∷ ProjectState.killed ∷ []
project_transitions ProjectState.blocked =
    ProjectState.building ∷ ProjectState.planning ∷ ProjectState.killed ∷ []
project_transitions ProjectState.done = []
project_transitions ProjectState.killed = []

-- `MILESTONE_TRANSITIONS[src]`
abbrev pub milestone_transitions : MilestoneState → List MilestoneState
milestone_transitions MilestoneState.pending = MilestoneState.building ∷ MilestoneState.failed ∷ []
milestone_transitions MilestoneState.building =
    MilestoneState.done ∷ MilestoneState.failed ∷ MilestoneState.pending ∷ []
milestone_transitions MilestoneState.failed = MilestoneState.building ∷ MilestoneState.failed ∷ []
milestone_transitions MilestoneState.done = []

-- The test of `assert_legal_project`; it raises where this is false.
abbrev pub legal_project : ProjectState → ProjectState → Bool
legal_project src dst = any (project_state_eq dst) (project_transitions src)

-- The test of `assert_legal_milestone`.
abbrev pub legal_milestone : MilestoneState → MilestoneState → Bool
legal_milestone src dst = any (milestone_state_eq dst) (milestone_transitions src)

unfoldable pub assert_legal_project : ProjectState → ProjectState → Result (Unit {0})
assert_legal_project src dst = raise_unless (legal_project src dst) (illegal_project src dst)

unfoldable pub assert_legal_milestone : MilestoneState → MilestoneState → Result (Unit {0})
assert_legal_milestone src dst = raise_unless (legal_milestone src dst) (illegal_milestone src dst)

unfoldable pub legal_project_successors : ProjectState → List ProjectState
legal_project_successors src = project_transitions src

unfoldable pub legal_milestone_successors : MilestoneState → List MilestoneState
legal_milestone_successors src = milestone_transitions src
