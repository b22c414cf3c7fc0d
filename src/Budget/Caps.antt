-- ===== src/Budget/Caps.antt =====
-- What the two caps of the budget mean.
use ai_dev_swarm.Common.{
  ℕ, ◌+◌, ◌/◌, ◌≤◌, ◌≡◌, refl, ◌↔◌, true, Option, none, some, pos, arith, ==_self,
}
use ai_dev_swarm.Settings.{Settings}
use ai_dev_swarm.Schemas.Exceptions.{ok}
use ai_dev_swarm.Store.State.{State, TokenEntry}
use ai_dev_swarm.Store.Tokens.{
  tokens, id_is, record_tokens, daily_total_tokens, milestone_total_tokens,
}
use ai_dev_swarm.Budget.{can_spend}

-- The cap on one milestone, where one is named.
abbrev pub Within : Settings → Option ℕ → ℕ → State → Type 0
Within c none r s = Unit
Within c (some i) r s = milestone_total_tokens i s + r ≤ c.per_milestone_token_budget

-- A request is granted exactly when it fits, on top of what is spent today, in the daily budget,
-- and, where a milestone is named, on top of what the milestone has spent, in its cap.
pub can_spend_iff :
    (c : Settings) (i : Option ℕ) (r : ℕ) (s : State)
    → (can_spend c i (pos r) s ≡ ok true)
      ↔ ((daily_total_tokens s + r ≤ c.daily_token_budget) × Within c i r s)
unfolding can_spend
can_spend_iff c none r s = (λ h. (ground arith, tt), λ h. ground arith)
can_spend_iff c (some i) r s = (λ h. (ground arith, ground arith), λ h. ground arith)

daily-record :
    (e : TokenEntry) (s : State)
    → daily_total_tokens (record_tokens e s) ≡ tokens e + daily_total_tokens s
unfolding daily_total_tokens record_tokens
daily-record e s = rw (==_self (s.now / 86400)) refl

milestone-record :
    (i : ℕ) (e : TokenEntry) (s : State)
    → e.milestone_id ≡ some i
    → milestone_total_tokens i (record_tokens e s) ≡ tokens e + milestone_total_tokens i s
unfolding milestone_total_tokens record_tokens
milestone-record i e s h =
    let counted : id_is i e.milestone_id ≡ true = rw h (==_self i) in rw counted refl

-- What is spent on a milestone counts at once: after its tokens are recorded, a request for the
-- milestone is answered as a request for so many tokens more was before.
pub spent_counts :
    (c : Settings) (i r : ℕ) (e : TokenEntry) (s : State)
    → e.milestone_id ≡ some i
    → can_spend c (some i) (pos r) (record_tokens e s) ≡ can_spend c (some i) (pos (tokens e + r)) s
unfolding can_spend
spent_counts c i r e s h = ground (arith, daily-record e s, milestone-record i e s h)
