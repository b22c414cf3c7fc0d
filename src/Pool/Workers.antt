-- ===== src/Pool/Workers.antt =====
-- orchestrator/scheduler.py: the worker loops of one pool as a sequence of events. A worker claims
-- under the lock, runs a tick for as long as it takes, and then finishes; the events of different
-- workers come in any order, and each sees whatever the store holds by then.
use ai_dev_swarm.Common.{ℕ, ◌==◌, List, [], ◌∷◌, Option, none, some, if◌then◌else◌}
use ai_dev_swarm.Schemas.Project.{Project}
use ai_dev_swarm.Schemas.Exceptions.{Result}
use ai_dev_swarm.Store.State.{State}
use ai_dev_swarm.Pool.{ErrorText, ProjectPool, claim_next, finish}

-- The pool, and the project whose tick each worker is running.
pub record Workers : Type 0 where
  pub pool : ProjectPool
  pub held : ℕ → Option Project

pub data Event : Type 0 where
  starts : (worker now : ℕ) (s : State) → Event
  ends : (worker now : ℕ) (et : ErrorText) (r : Result (Option Project)) (s : State) → Event

abbrev pub set_held : ℕ → Option Project → (ℕ → Option Project) → ℕ → Option Project
set_held w v held w' = if w == w' then v else held w'

-- A worker that is idle claims; one that is busy does nothing else.
abbrev pub begin : ℕ → Option Project → Option Project × ProjectPool → Workers → Workers
begin w (some _) claim ws = ws
begin w none (p, pool) ws = record { pool = pool; held = set_held w p ws.held }

abbrev pub end :
    ℕ → ℕ → ErrorText → Result (Option Project) → State → Option Project → Workers → Workers
end w now et r s none ws = ws
end w now et r s (some p) ws = record {
  pool = (finish et now p r ws.pool s).1;
  held = set_held w none ws.held;
}

unfoldable pub turn : Event → Workers → Workers
turn (starts w now s) ws = begin w (ws.held w) (claim_next now ws.pool s) ws
turn (ends w now et r s) ws = end w now et r s (ws.held w) ws

unfoldable pub run : List Event → Workers → Workers
run [] ws = ws
run (e ∷ es) ws = run es (turn e ws)

-- A pool when the process starts.
abbrev pub empty_pool : ProjectPool
empty_pool = record { claimed = []; cooldown_until = λ i. none; transient_fails = λ i. none }

abbrev pub idle : Workers
idle = record { pool = empty_pool; held = λ w. none }
