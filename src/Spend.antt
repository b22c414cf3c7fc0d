-- ===== src/Spend.antt =====
-- tools/budget.py and crews/_spend.py: one row of the token log for each call of a model. An amount
-- is in units of 0.0001 USD, rounded as the column `numeric(10, 4)` rounds it.
use ai_dev_swarm.Common.{
  ℕ, ◌+◌, ◌*◌, ◌/◌, ◌==◌, ◌&&◌, List, [], ◌∷◌, Option, none, some, Text, text, contains,
  if◌then◌else◌,
}
use ai_dev_swarm.Slugs.{Characters, lower_text}
use ai_dev_swarm.Store.Action.{Action, modify, pure}
use ai_dev_swarm.Store.Tokens.{record_tokens}

-- LiteLLM's price of a call, in units of 0.0001 USD; `none` where it raises.
pub record Prices : Type 0 where
  pub characters : Characters
  pub cost_per_token : (model : Text) (prompt_tokens completion_tokens : ℕ) → Option ℕ

-- `_PRICE_PER_MTOK`, in USD
abbrev pub price_per_mtok : List (Text × ℕ × ℕ)
price_per_mtok = (text "opus", 15, 75) ∷ (text "sonnet", 3, 15) ∷ (text "haiku", 1, 5) ∷ []

-- The loop over the table, for the lowered name of the model.
unfoldable pub fallback_price : Text → ℕ → ℕ → List (Text × ℕ × ℕ) → ℕ
fallback_price m prompt completion [] = 0
fallback_price m prompt completion ((name, price_in, price_out) ∷ table) =
    let rest = fallback_price m prompt completion table in
    if contains name m then (prompt * price_in + completion * price_out + 50) / 100 else rest

abbrev pub price_or : Option ℕ → ℕ → ℕ
price_or none fallback = fallback
price_or (some price) fallback = price

-- `estimate_cost_usd`
unfoldable pub estimate_cost_usd : Prices → Text → ℕ → ℕ → ℕ
estimate_cost_usd p model prompt completion =
    price_or (p.cost_per_token model prompt completion)
      (fallback_price (lower_text p.characters model) prompt completion price_per_mtok)

-- `SpendRecorder.record`
unfoldable pub record_spend :
    Prices → Option ℕ → Option ℕ → Text → Text → ℕ → ℕ → Option ℕ → Action (Unit {0})
record_spend p project_id milestone_id role model prompt completion cost_usd = modify (
    record_tokens (record {
      project_id = project_id;
      milestone_id = milestone_id;
      role = role;
      model = model;
      input_tokens = prompt;
      output_tokens = completion;
      cost_usd = price_or cost_usd (estimate_cost_usd p model prompt completion);
      created_at = 0;
    }))

-- `record_crew_spend`, on the usage that the crew's output has.
unfoldable pub record_crew_spend :
    Prices → Option (ℕ × ℕ) → Option ℕ → Option ℕ → Text → Text → Action (Unit {0})
record_crew_spend p none project_id milestone_id role model = pure tt
record_crew_spend p (some (prompt, completion)) project_id milestone_id role model =
    if prompt == 0 && completion == 0
    then pure tt
    else record_spend p project_id milestone_id role model prompt completion none
