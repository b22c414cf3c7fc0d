-- ===== src/Store/State.antt =====
-- The shared state: the tables of Postgres (docker/init.sql and the migrations), the keys of
-- Redis, the messages sent, and the world that the crews act on. A table is a bag of rows.
use ai_dev_swarm.Common.{ℕ, List, Option, Text}
use ai_dev_swarm.Settings.{SettingValue}
use ai_dev_swarm.Schemas.Project.{Project}
use ai_dev_swarm.Schemas.Milestone.{Milestone}
use ai_dev_swarm.Schemas.Idea.{IdeaEvaluation}

-- A row of `token_log`; the cost is in units of 0.0001 USD, as the column `numeric(10, 4)` is.
pub record TokenEntry : Type 0 where
  pub project_id : Option ℕ
  pub milestone_id : Option ℕ
  pub role : Text
  pub model : Text
  pub input_tokens : ℕ
  pub output_tokens : ℕ
  pub cost_usd : ℕ
  pub created_at : ℕ

-- A row of `milestone_sessions`.
pub record MilestoneSession : Type 0 where
  pub id : ℕ
  pub milestone_id : ℕ
  pub role : Text
  pub session_id : Text
  pub cost_usd : ℕ
  pub turns : ℕ
  pub finished_at : ℕ

-- A row of `steering_notes`.
pub record SteeringNote : Type 0 where
  pub id : ℕ
  pub project_id : ℕ
  pub body : Text
  pub author : Text
  pub target_role : Option Text
  pub created_at : ℕ

-- A row of `steering_note_deliveries`.
pub record Delivery : Type 0 where
  pub note_id : ℕ
  pub role : Text

-- What the crews and tools act on. They are given no repository of projects or milestones.
-- `outside` stands for the disk, git, GitHub and the language models, as one opaque number.
pub record World : Type 0 where
  pub token_log : List TokenEntry
  pub sessions : List MilestoneSession
  pub notes : List SteeringNote
  pub deliveries : List Delivery
  pub outside : ℕ

-- The keys of tools/kill_switch.py.
pub data Key : Type 0 where
  flag reason : Key
  project_flag project_reason : (project_id : ℕ) → Key

-- The messages that the tick sends to Telegram.
pub data Notice : Type 0 where
  awaits_approval : (name : Text) (milestones : ℕ) → Notice
  blocked_token_cap : (name title : Text) → Notice
  repo_created : (name url : Text) → Notice
  scope_cap : (name : Text) (count cap : ℕ) → Notice
  cost_cap : (name : Text) (cost cap : ℕ) → Notice
  blocked_on : (name title : Text) → Notice
  failed_integration : (name : Text) → Notice
  shipped : (name repo : Text) → Notice
  escalated : (name reason : Text) → Notice

-- `next_id` is the next UUID that the database or the program makes, `now` the clock, `overrides`
-- the table `settings_overrides`, `live` the attributes of the live settings object, and
-- `evaluations` the table `idea_evaluations`.
pub record State : Type 0 where
  pub projects : List Project
  pub milestones : List Milestone
  pub next_id : ℕ
  pub now : ℕ
  pub redis : Key → Option Text
  pub outbox : List Notice
  pub world : World
  pub overrides : List (Text × Text)
  pub live : Text → Option SettingValue
  pub evaluations : List IdeaEvaluation
