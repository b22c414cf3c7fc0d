-- ===== src/KillSwitch.antt =====
-- tools/kill_switch.py: the switch of the running system (kill flags in Redis, pause flags on the
-- project rows) and the process-local one.
pub mod InMemory
pub mod Simulation
mod Tests
use ai_dev_swarm.Common.{
  ℕ, ◌==◌, Bool, true, false, ◌&&◌, List, [], ◌∷◌, Option, none, some, Text, text, text_eq, any,
  select, not, if◌then◌else◌,
}
use ai_dev_swarm.Store.State.{State, Key, flag, reason, project_flag, project_reason}
use ai_dev_swarm.Store.Action.{Action}
use ai_dev_swarm.Store.Projects

-- Two key strings are equal when they are the same f-string of the same project.
abbrev pub key_eq : Key → Key → Bool
key_eq flag flag = true
key_eq reason reason = true
key_eq (project_flag i) (project_flag j) = i == j
key_eq (project_reason i) (project_reason j) = i == j
key_eq _ _ = false

abbrev pub redis_set : Key → Text → State → State
redis_set k v s = record s { redis = λ k'. if key_eq k k' then some v else s.redis k' }

abbrev pub redis_delete : Key → State → State
redis_delete k s = record s { redis = λ k'. if key_eq k k' then none else s.redis k' }

-- `get(key) == b"1"`
abbrev pub is_one : Option Text → Bool
is_one none = false
is_one (some v) = text_eq v (text "1")

abbrev pub is_empty : Text → Bool
is_empty [] = true
is_empty (_ ∷ _) = false

unfoldable pub is_tripped : State → Bool
is_tripped s = is_one (s.redis flag)

unfoldable pub trip : Text → State → State
trip why s =
    let s' = redis_set flag (text "1") s in if is_empty why then s' else redis_set reason why s'

unfoldable pub reset : State → State
reset s = redis_delete reason (redis_delete flag s)

unfoldable pub is_tripped_for : ℕ → State → Bool
is_tripped_for i s = is_one (s.redis (project_flag i))

unfoldable pub trip_for : ℕ → Text → State → State
trip_for i why s =
    let s' = redis_set (project_flag i) (text "1") s in
    if is_empty why then s' else redis_set (project_reason i) why s'

unfoldable pub reset_for : ℕ → State → State
reset_for i s = redis_delete (project_reason i) (redis_delete (project_flag i) s)

unfoldable pub is_paused_for : ℕ → State → Bool
is_paused_for i s = Projects.paused_row (Projects.row i s)

unfoldable pub pause_for : ℕ → State → State
pause_for i s = (Projects.set_paused i true s).1

unfoldable pub unpause_for : ℕ → State → State
unpause_for i s = (Projects.set_paused i false s).1
