-- ===== src/Budget/Tests.antt =====
-- The theorems about the budget at concrete inputs.
use ai_dev_swarm.Common.{◌+◌, ◌≤◌, ◌≡◌, ◌↔◌, refl, true, some, text, pos}
use ai_dev_swarm.Schemas.Exceptions.{ok}
use ai_dev_swarm.Store.State.{TokenEntry}
use ai_dev_swarm.Store.Tokens.{record_tokens, daily_total_tokens}
use ai_dev_swarm.Samples.{settings, running}
use ai_dev_swarm.Budget.{can_spend}
use ai_dev_swarm.Budget.Caps.{Within, can_spend_iff, spent_counts}

-- A call that used 900 tokens for milestone 11.
abbrev call : TokenEntry
call = record {
  project_id = some 1;
  milestone_id = some 11;
  role = text "Developer";
  model = text "m";
  input_tokens = 800;
  output_tokens = 100;
  cost_usd = 5;
  created_at = 0;
}

can_spend_iff_example :
    (can_spend settings (some 11) (pos 7) running ≡ ok true)
    ↔ ((daily_total_tokens running + 7 ≤ 2000) × Within settings (some 11) 7 running)
can_spend_iff_example = can_spend_iff settings (some 11) 7 running

spent_counts_example :
    can_spend settings (some 11) (pos 200) (record_tokens call running)
    ≡ can_spend settings (some 11) (pos 1100) running
spent_counts_example = spent_counts settings 11 200 call running refl
