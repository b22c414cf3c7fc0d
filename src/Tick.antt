-- ===== src/Tick.antt =====
-- orchestrator/tick.py: one state-machine step of one project.
pub mod Tools
pub mod Moves
pub mod Build
pub mod Replan
pub mod Hops
pub mod Handlers
pub mod Safety
mod Tests
use ai_dev_swarm.Common.{Bool, List, [], ◌∷◌, Option, none, some, if◌then◌else◌}
use ai_dev_swarm.KillSwitch
use ai_dev_swarm.Schemas.Project.{Project, ProjectState}
use ai_dev_swarm.Store.Action.{Action, ◌>>=◌, ◌>>◌, pure, gets}
use ai_dev_swarm.Store.Projects
use Tools.{TickDeps}
use Moves.{move}
use Build.{plan, build_one_milestone}
use Replan.{replan, integrate}

-- A handler that always returns a project.
abbrev pub advanced : Action Project → Action (Option Project)
advanced m = m >>= λ p. pure (some p)

-- `_advance_active`, on the project's state.
unfoldable pub advance_active : TickDeps → Project → ProjectState → Action (Option Project)
advance_active d project ProjectState.queued = advanced (move d project ProjectState.planning)
advance_active d project ProjectState.planning = advanced (plan d project)
advance_active d project ProjectState.building = build_one_milestone d project
advance_active d project ProjectState.replanning = advanced (replan d project)
advance_active d project ProjectState.integration = advanced (integrate d project)
advance_active d project _ = pure none

unfoldable pub advance_project : TickDeps → Project → Action (Option Project)
advance_project d project = do
  halted ← gets KillSwitch.is_tripped
  killed ← gets (KillSwitch.is_tripped_for project.id)
  paused ← gets (KillSwitch.is_paused_for project.id)
  if halted
      then pure none
      else (if killed
          then advanced (move d project ProjectState.killed)
          else (if paused then pure none else advance_active d project project.state))

-- The next queued project, where none is active.
abbrev pub start_queued : TickDeps → List Project → Action (Option Project)
start_queued d [] = pure none
start_queued d (p ∷ ps) = advanced (move d p ProjectState.planning)

abbrev pub step_active : TickDeps → Option Project → Action (Option Project)
step_active d (some active) = advance_project d active
step_active d none = do queued ← Projects.list_by_state ProjectState.queued; start_queued d queued

unfoldable pub advance_one_step : TickDeps → Action (Option Project)
advance_one_step d = do
  halted ← gets KillSwitch.is_tripped
  active ← Projects.get_active
  if halted then pure none else step_active d active
