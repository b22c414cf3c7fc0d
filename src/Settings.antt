-- ===== src/Settings.antt =====
-- settings.py: the settings that the modelled code reads. An amount of money is in units of
-- 0.0001 USD. Negative integers are not modelled.
use ai_dev_swarm.Common.{ℕ, ℤ, Bool, Text}

pub record Settings : Type 0 where
  pub model_strong : Text
  pub model_fast : Text
  pub model_dev : Text
  pub daily_token_budget : ℕ
  pub per_milestone_token_budget : ℕ
  pub require_approval : Bool
  pub milestone_retry_limit : ℕ
  pub build_concurrency : ℕ
  pub ideation_min_score : ℕ
  pub ideation_max_rounds : ℕ
  pub sdk_max_turns : ℕ
  pub sdk_max_budget_usd : ℕ
  pub tester_max_turns : ℕ
  pub ci_repair_attempts : ℕ
  pub auto_split_max_turns : ℕ
  pub auto_split_max_cost_usd : ℕ
  pub consolidation_every : ℕ
  pub max_project_milestones : ℕ
  pub max_project_cost_usd : ℕ
  pub github_token : Text

-- A Python float: n / (d + 1), or one of the values that are no numbers.
pub data Float : Type 0 where
  finite : (numerator : ℤ) (denominator : ℕ) → Float
  nan infinity neg_infinity : Float

-- The value of an attribute of the live settings object.
pub data SettingValue : Type 0 where
  integer : ℤ → SettingValue
  float : Float → SettingValue
  boolean : Bool → SettingValue
  choice : Text → SettingValue
