-- ===== src/Schemas/Project.antt =====
-- schemas/project.py: the project and milestone states, and the project row.
-- UUIDs and times are numbers. A status text is represented by the f-string that made it, with
-- the values that it interpolates.
use ai_dev_swarm.Common.{ℕ, Bool, true, false, ◌==◌, List, Option, Text, ◌≡◌, arith}

pub data ProjectState : Type 0 where
  queued planning awaiting_approval building replanning integration done blocked killed :
      ProjectState

pub data MilestoneState : Type 0 where
  pending building done failed : MilestoneState

-- Python compares the members of an enumeration by identity.
abbrev pub project_index : ProjectState → ℕ
project_index ProjectState.queued = 0
project_index ProjectState.planning = 1
project_index ProjectState.awaiting_approval = 2
project_index ProjectState.building = 3
project_index ProjectState.replanning = 4
project_index ProjectState.integration = 5
project_index ProjectState.done = 6
project_index ProjectState.blocked = 7
project_index ProjectState.killed = 8

abbrev pub project_state_eq : ProjectState → ProjectState → Bool
project_state_eq a b = project_index a == project_index b

abbrev pub milestone_index : MilestoneState → ℕ
milestone_index MilestoneState.pending = 0
milestone_index MilestoneState.building = 1
milestone_index MilestoneState.done = 2
milestone_index MilestoneState.failed = 3

abbrev pub milestone_state_eq : MilestoneState → MilestoneState → Bool
milestone_state_eq a b = milestone_index a == milestone_index b

-- `state in TERMINAL_PROJECT_STATES`
abbrev pub terminal_project : ProjectState → Bool
terminal_project ProjectState.done = true
terminal_project ProjectState.killed = true
terminal_project _ = false

pub record ProjectSpec : Type 0 where
  pub title : Text
  pub summary : Text
  pub rationale : Text
  pub stack : List Text
  pub tags : List Text
  pub score : ℕ

-- The texts that the program writes into `status_detail`.
pub data Detail : Type 0 where
  awaiting_your_approval : (milestones : ℕ) → Detail
  building_milestone : (title : Text) → Detail
  token_cap_exceeded : (title : Text) → Detail
  scope_milestones : (count cap : ℕ) → Detail
  scope_cost : (cost cap : ℕ) → Detail
  milestone_failed : (title : Text) (limit : ℕ) (reason : Text) → Detail
  integration_failed : (reason : Text) → Detail
  replanner_escalated : (reason : Text) → Detail
  paused_by_operator resumed_by_operator resumed_replanning : Detail
  transient_pause : (seconds : ℕ) (type_name : Text) (attempt : ℕ) → Detail
  repeated_transient : (type_name message : Text) → Detail
  crashed : (state : ProjectState) (type_name message : Text) → Detail
  not_blockable : (state : ProjectState) (type_name : Text) → Detail

pub record Project : Type 0 where
  pub id : ℕ
  pub name : Text
  pub spec : ProjectSpec
  pub state : ProjectState
  pub github_repo : Option Text
  pub status_detail : Option Detail
  pub is_paused : Bool
  pub created_at : ℕ
  pub updated_at : ℕ

-- `Project.is_terminal`
pub is_terminal : Project → Bool
is_terminal p = terminal_project p.state

pub project_state_eq→eq : (a b : ProjectState) → project_state_eq a b ≡ true → a ≡ b
project_state_eq→eq a b h = ground arith

pub milestone_state_eq→eq : (a b : MilestoneState) → milestone_state_eq a b ≡ true → a ≡ b
milestone_state_eq→eq a b h = ground arith
