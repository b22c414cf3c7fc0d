-- ===== src/Store/Sessions.antt =====
-- db/sessions.py: what a session row that was just recorded is found by.
pub mod Latest
use ai_dev_swarm.Common.{ℕ, ◌+◌, ◌∷◌, Text}
use ai_dev_swarm.Store.State.{State, MilestoneSession}
use ai_dev_swarm.Schemas.Exceptions.{ok}
use ai_dev_swarm.Store.Action.{Action}

abbrev pub new_session : ℕ → Text → Text → ℕ → ℕ → State → MilestoneSession
new_session milestone_id role session_id cost_usd turns s = record {
  id = s.next_id;
  milestone_id = milestone_id;
  role = role;
  session_id = session_id;
  cost_usd = cost_usd;
  turns = turns;
  finished_at = s.now;
}

-- `PsycopgMilestoneSessionRepo.record`; no caller uses the row that it returns.
unfoldable pub record_session : ℕ → Text → Text → ℕ → ℕ → Action (Unit {0})
record_session milestone_id role session_id cost_usd turns s = (
  ok tt,
  record s {
    next_id = s.next_id + 1;
    world = record s.world {
      sessions = new_session milestone_id role session_id cost_usd turns s ∷ s.world.sessions;
    };
  },
)
