-- ===== src/Tick/Tools.antt =====
-- `TickDeps`: the settings and the collaborators of the tick. The crews, the workspace, the
-- sandbox, GitHub and the notifiers are parameters: functions on the world, in which the code
-- under them reads and writes what it owns. An absent optional collaborator is the function that
-- changes nothing; those that never raise return only the world.
use ai_dev_swarm.Common.{ℕ, Bool, List, Text}
use ai_dev_swarm.Settings.{Settings}
use ai_dev_swarm.Slugs.{Characters}
use ai_dev_swarm.Schemas.Project.{Project, ProjectSpec}
use ai_dev_swarm.Schemas.Milestone.{Milestone, MilestoneSpec, MilestoneBuildResult}
use ai_dev_swarm.Schemas.Replanner.{ReplannerAction}
use ai_dev_swarm.Schemas.Exceptions.{Result}
use ai_dev_swarm.Store.State.{World, MilestoneSession}

-- The result of a CI run; `tail` is the end of its output, as the tick cuts it.
pub record SandboxResult : Type 0 where
  pub passed : Bool
  pub tail : Text

pub record CreatedRepo : Type 0 where
  pub push_remote : Text
  pub html_url : Text

abbrev pub Call : Type 0 → Type 0
Call A = World → Result A × World

pub record TickDeps : Type 0 where
  pub settings : Settings
  pub characters : Characters
  pub planning_crew : (project_id : ℕ) → ProjectSpec → Call (List MilestoneSpec)
  pub build_crew : Milestone → Call MilestoneBuildResult
  pub replanning_crew : Project → Milestone → List MilestoneSession → Call ReplannerAction
  pub run_ci : (workspace : Text) → Call SandboxResult
  pub for_project : (name : Text) → Call (Unit {0})
  pub is_dirty : (name : Text) → Call Bool
  pub commit_all : (name message : Text) → Call Text
  pub has_remote : (name : Text) → World → Bool
  pub set_remote : (name url : Text) → Call (Unit {0})
  pub push : (name token : Text) → Call (Unit {0})
  pub create_repo : (name description : Text) → Call CreatedRepo
  pub on_plan : Project → (milestones : ℕ) → World → World
  pub on_milestone_done : Project → (milestone_id : ℕ) → (title : Text) → World → World
  pub diagnose : Project → Milestone → (reason : Text) → World → World
  pub transition_sink : Project → World → World
  pub token_log : Bool
