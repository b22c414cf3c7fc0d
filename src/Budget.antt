-- ===== src/Budget.antt =====
-- tools/budget.py: the daily throttle and the per-milestone sanity cap.
pub mod Caps
mod Tests
use ai_dev_swarm.Common.{
  ℕ, ◌+◌, ltb, Bool, true, false, Option, none, some, text, ℤ, pos, negsuc, if◌then◌else◌,
}
use ai_dev_swarm.Settings.{Settings}
use ai_dev_swarm.Schemas.Exceptions.{Result, ok, raise, value_error}
use ai_dev_swarm.Store.State.{State}
use ai_dev_swarm.Store.Tokens.{daily_total_tokens, milestone_total_tokens}

-- The branch `if milestone_id is not None`.
abbrev pub within_milestone : Settings → Option ℕ → ℕ → State → Bool
within_milestone c none requested s = true
within_milestone c (some i) requested s =
    if ltb c.per_milestone_token_budget (milestone_total_tokens i s + requested)
    then false
    else true

-- `DefaultTokenBudget.can_spend`
unfoldable pub can_spend : Settings → Option ℕ → ℤ → State → Result Bool
can_spend c milestone_id (negsuc _) s = raise (value_error (text "requested must be non-negative"))
can_spend c milestone_id (pos requested) s =
    if ltb c.daily_token_budget (daily_total_tokens s + requested)
    then ok false
    else ok (within_milestone c milestone_id requested s)
