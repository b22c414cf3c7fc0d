-- ===== src/Pool/Tests.antt =====
-- The theorems about the pool at concrete inputs, and runs of it.
use ai_dev_swarm.Common.{
  ℕ, ◌+◌, ◌*◌, ◌⊎◌, ◌≢◌, ◌||◌, ltb, true, false, ◌≡◌, ◌≤◌, refl, List, [], ◌∷◌, some, none, text,
  inl, arith,
}
use ai_dev_swarm.Schemas.Project.{Project, ProjectState}
use ai_dev_swarm.Schemas.Exceptions.{Exception, foreign, ok}
use ai_dev_swarm.Store.State.{State}
use ai_dev_swarm.Store.Projects.Rows.{state_at, SameStates}
use ai_dev_swarm.KillSwitch
use ai_dev_swarm.Samples.{deps, project, running, state}
use ai_dev_swarm.Pool.{
  ErrorText, handle_crash, streak, skipped, claim_next, step, backoff, is_transient_error, pick,
  gather_candidates,
}
use ai_dev_swarm.Pool.Workers.{Event, starts, ends, idle, turn, run, empty_pool}
use ai_dev_swarm.Pool.Claims.{mutual_exclusion}
use ai_dev_swarm.Pool.Backoff.{transient_crash, final_crash, backoff_bounds}
use ai_dev_swarm.Pool.Oldest.{Chosen, claim_next-Chosen}
use ai_dev_swarm.Pool.Starvation.{paused_head_starves}

abbrev error_text : ErrorText
error_text = record {
  type_name = λ e. text "RateLimitError";
  message = λ e. text "slow down";
  lowered = λ e. text "slow down";
}

abbrev other_error_text : ErrorText
other_error_text = record {
  type_name = λ e. text "LookupError";
  message = λ e. text "no milestone";
  lowered = λ e. text "no milestone";
}

abbrev limit : Exception
limit = foreign (text "RateLimitError") (text "slow down")

-- Two workers start, and the first one ends.
abbrev events : List Event
events =
    starts 0 5000 running ∷ starts 1 5000 running ∷ ends 0 5001 error_text (ok none) running ∷ []

both_busy :
    (run (starts 0 5000 running ∷ starts 1 5000 running ∷ []) idle).pool.claimed ≡ 2 ∷ 1 ∷ []
unfolding run turn claim_next pick gather_candidates
both_busy = refl

second_holds : (run events idle).held 1 ≡ some (project 2 ProjectState.queued)
unfolding run turn claim_next pick gather_candidates
second_holds = refl

mutual_exclusion_example : ◌≡◌ {A = ℕ} 1 1
mutual_exclusion_example =
    mutual_exclusion events 1 1 (project 2 ProjectState.queued) (project 2 ProjectState.queued)
      second_holds second_holds refl

claim_next-Chosen_example :
    Chosen 5000 empty_pool running.projects (claim_next 5000 empty_pool running).0
claim_next-Chosen_example = claim_next-Chosen 5000 empty_pool running

is_limit : is_transient_error error_text limit ≡ true
unfolding is_transient_error
is_limit = refl

abbrev building : Project
building = project 1 ProjectState.building

transient_crash_example :
    SameStates running (handle_crash error_text 5000 building limit empty_pool running).1
    × ((handle_crash error_text 5000 building limit empty_pool running).0.claimed ≡ [])
    × (streak building (handle_crash error_text 5000 building limit empty_pool running).0 ≡ 2)
    × ((later : ℕ)
        → skipped later (handle_crash error_text 5000 building limit empty_pool running).0 building
          ≡ (false || ltb later (5000 + backoff 1)))
    × ((q : Project)
        → q.id ≢ 1
        → (later : ℕ)
        → skipped later (handle_crash error_text 5000 building limit empty_pool running).0 q
          ≡ skipped later empty_pool q)
transient_crash_example =
    transient_crash error_text 5000 building limit empty_pool running is_limit (omega arith)

is_other : is_transient_error other_error_text limit ≡ false
unfolding is_transient_error
is_other = refl

final_crash_example :
    (state_at 1 (handle_crash other_error_text 5000 building limit empty_pool running).1
      ≡ some ProjectState.blocked)
    × ((i : ℕ)
        → i ≢ 1
        → state_at i (handle_crash other_error_text 5000 building limit empty_pool running).1
          ≡ state_at i running)
    × (streak building (handle_crash other_error_text 5000 building limit empty_pool running).0 ≡ 1)
final_crash_example =
    final_crash other_error_text 5000 building building limit empty_pool running (inl is_other) refl
      refl

backoff_bounds_example :
    (backoff 1 ≡ 30)
    × (30 ≤ backoff 4)
    × (backoff 4 ≤ 900)
    × (backoff 4 ≤ backoff 5)
    × ((backoff 5 ≡ backoff 4 * 2) ⊎ (backoff 5 ≡ 900))
backoff_bounds_example = backoff_bounds 3

-- The oldest project is paused, and a second one waits.
abbrev resting : Project
resting = record (project 1 ProjectState.building) { is_paused = true }

abbrev with_resting : State
with_resting = state (resting ∷ project 2 ProjectState.queued ∷ []) []

picks_resting : (claim_next 5000 empty_pool with_resting).0 ≡ some resting
unfolding claim_next pick gather_candidates
picks_resting = refl

not_killed : KillSwitch.is_tripped_for 1 with_resting ≡ false
unfolding KillSwitch.is_tripped_for
not_killed = refl

is_resting : KillSwitch.is_paused_for 1 with_resting ≡ true
unfolding KillSwitch.is_paused_for
is_resting = refl

paused_head_starves_example :
    ((step error_text deps 5000 empty_pool with_resting).0 ≡ false)
    × ((step error_text deps 5000 empty_pool with_resting).2 ≡ with_resting)
    × ((q : Project)
        → q.id ≢ resting.id
        → (later : ℕ)
        → skipped later (step error_text deps 5000 empty_pool with_resting).1 q
          ≡ skipped later empty_pool q)
    × ((claim_next 5000 (step error_text deps 5000 empty_pool with_resting).1 with_resting).0
        ≡ some resting)
paused_head_starves_example =
    paused_head_starves error_text deps 5000 empty_pool with_resting resting picks_resting
      not_killed is_resting
