-- ===== src/Store/Tokens.antt =====
-- db/repositories.py, `PsycopgTokenLogRepo`, and db/sessions.py. A day is 86,400 units of time.
use ai_dev_swarm.Common.{
  ℕ, ◌+◌, ◌/◌, ◌==◌, Bool, false, ◌&&◌, List, [], ◌∷◌, Option, none, some, Text, text_eq, any,
  select, map, sort_by, head?, if◌then◌else◌,
}
use mathlib.Core.List.{reverse}
use ai_dev_swarm.Store.State.{State, World, TokenEntry, MilestoneSession}

abbrev pub tokens : TokenEntry → ℕ
tokens e = e.input_tokens + e.output_tokens

-- `COALESCE(SUM(f), 0) ... WHERE p`
abbrev pub sum_where : (TokenEntry → Bool) → (TokenEntry → ℕ) → List TokenEntry → ℕ
sum_where p f [] = 0
sum_where p f (e ∷ es) = (if p e then f e else 0) + sum_where p f es

abbrev pub id_is : ℕ → Option ℕ → Bool
id_is i none = false
id_is i (some j) = j == i

-- `TokenLogRepo.record`
unfoldable pub record_tokens : TokenEntry → State → State
record_tokens e s = record s {
  world = record s.world { token_log = record e { created_at = s.now } ∷ s.world.token_log };
}

abbrev pub today : ℕ → TokenEntry → Bool
today now e = e.created_at / 86400 == now / 86400

unfoldable pub daily_total_tokens : State → ℕ
daily_total_tokens s = sum_where (today s.now) tokens s.world.token_log

abbrev pub of_milestone : ℕ → TokenEntry → Bool
of_milestone i e = id_is i e.milestone_id

unfoldable pub milestone_total_tokens : ℕ → State → ℕ
milestone_total_tokens i s = sum_where (of_milestone i) tokens s.world.token_log

unfoldable pub daily_cost_usd : State → ℕ
daily_cost_usd s = sum_where (today s.now) (λ e. e.cost_usd) s.world.token_log

unfoldable pub all_time_totals : State → ℕ × ℕ
all_time_totals s = (
  sum_where (λ _. Bool.true) tokens s.world.token_log,
  sum_where (λ _. Bool.true) (λ e. e.cost_usd) s.world.token_log,
)

abbrev pub of_project : ℕ → TokenEntry → Bool
of_project i e = id_is i e.project_id

-- The distinct project ids of the log.
abbrev pub add_id : Option ℕ → List ℕ → List ℕ
add_id none ids = ids
add_id (some i) ids = if any (λ j. j == i) ids then ids else i ∷ ids

abbrev pub project_ids : List TokenEntry → List ℕ
project_ids [] = []
project_ids (e ∷ es) = add_id e.project_id (project_ids es)

abbrev pub project_total : List TokenEntry → ℕ → ℕ × ℕ × ℕ
project_total log i =
    (i, sum_where (of_project i) tokens log, sum_where (of_project i) (λ e. e.cost_usd) log)

-- Per project the tokens and the cost, the dearest first.
unfoldable pub by_project : State → List (ℕ × ℕ × ℕ)
by_project s =
    let log = s.world.token_log in
    reverse (sort_by (λ t. t.2) (map (project_total log) (project_ids log)))

abbrev pub session_of : ℕ → Text → MilestoneSession → Bool
session_of i role x = x.milestone_id == i && text_eq x.role role

-- `MilestoneSessionRepo.latest_for`: ORDER BY finished_at DESC, id DESC LIMIT 1
unfoldable pub latest_for : ℕ → Text → World → Option MilestoneSession
latest_for i role w = head? (
    reverse
      (sort_by (λ x. x.finished_at) (sort_by (λ x. x.id) (select (session_of i role) w.sessions))))
