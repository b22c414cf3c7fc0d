-- ===== src/Pool.antt =====
-- orchestrator/scheduler.py, `ProjectPool`: workers that claim projects and run ticks on them.
-- Times are whole seconds. The set of advanceable states is read in one fixed order, which shows
-- only in how projects with equal `created_at` are sorted.
pub mod Claims
pub mod Backoff
pub mod Oldest
pub mod Starvation
pub mod Workers
mod Tests
use ai_dev_swarm.Common.{
  ℕ, zero, suc, ◌+◌, ◌-◌, ◌*◌, ◌^◌, min, ltb, ◌==◌, Bool, true, false, not, ◌&&◌, ◌||◌, List, [],
  ◌∷◌, ◌++◌, Option, none, some, Text, text, text_eq, contains, any, select, sort_by, is_some,
  if◌then◌else◌,
}
use ai_dev_swarm.Schemas.Project.{
  Project, ProjectState, Detail, project_state_eq, transient_pause, repeated_transient, crashed,
  not_blockable,
}
use ai_dev_swarm.Schemas.Transitions.{legal_project}
use ai_dev_swarm.Schemas.Exceptions.{Exception, Result, ok, raise}
use ai_dev_swarm.Store.State.{State}
use ai_dev_swarm.Store.Projects
use ai_dev_swarm.Store.Projects.{rows_in}
use ai_dev_swarm.Tick.{advance_project}
use ai_dev_swarm.Tick.Tools.{TickDeps}

-- What Python prints of an exception: `type(exc).__name__`, `str(exc)` and `str(exc).lower()`.
pub record ErrorText : Type 0 where
  pub type_name : Exception → Text
  pub message : Exception → Text
  pub lowered : Exception → Text

-- `_TRANSIENT_ERROR_TYPES`
abbrev pub transient_error_types : List Text
transient_error_types =
    text "ProcessError"
    ∷ text "CLIConnectionError"
    ∷ text "APIConnectionError"
    ∷ text "APITimeoutError"
    ∷ text "RateLimitError"
    ∷ text "InternalServerError"
    ∷ text "APIStatusError"
    ∷ text "OverloadedError"
    ∷ []

-- `_TRANSIENT_MSG_HINTS`
abbrev pub transient_msg_hints : List Text
transient_msg_hints =
    text "rate limit"
    ∷ text "rate_limit"
    ∷ text "429"
    ∷ text "529"
    ∷ text "overloaded"
    ∷ text "timed out"
    ∷ text "timeout"
    ∷ text "temporarily unavailable"
    ∷ text "connection error"
    ∷ text "connection reset"
    ∷ []

-- `_is_transient_error`
unfoldable pub is_transient_error : ErrorText → Exception → Bool
is_transient_error et exc =
    any (text_eq (et.type_name exc)) transient_error_types
    || any (λ hint. contains hint (et.lowered exc)) transient_msg_hints

-- `_BACKOFF_BASE_SECONDS`, `_BACKOFF_CAP_SECONDS`, `_MAX_TRANSIENT_FAILS`
abbrev pub backoff_base_seconds : ℕ
backoff_base_seconds = 30

abbrev pub backoff_cap_seconds : ℕ
backoff_cap_seconds = 900

abbrev pub max_transient_fails : ℕ
max_transient_fails = 5

-- The seconds to wait after the n-th failure in a row.
unfoldable pub backoff : ℕ → ℕ
backoff n = min backoff_cap_seconds (backoff_base_seconds * 2 ^ (n - 1))

pub record ProjectPool : Type 0 where
  pub claimed : List ℕ
  pub cooldown_until : ℕ → Option ℕ
  pub transient_fails : ℕ → Option ℕ

-- `dict.get(key, 0)`
abbrev pub or_zero : Option ℕ → ℕ
or_zero none = 0
or_zero (some n) = n

-- `dict[key] = value` and `dict.pop(key, None)`
abbrev pub put : ℕ → Option ℕ → (ℕ → Option ℕ) → ℕ → Option ℕ
put i v dict j = if i == j then v else dict j

abbrev pub in_claimed : ℕ → List ℕ → Bool
in_claimed i xs = any (λ j. j == i) xs

-- `set.discard`
abbrev pub discard : ℕ → List ℕ → List ℕ
discard i xs = select (λ j. not (j == i)) xs

-- `_gather_candidates`, over `_ADVANCEABLE_STATES`
unfoldable pub gather_candidates : State → List Project
gather_candidates s =
    sort_by (λ p. p.created_at)
      (rows_in ProjectState.queued s
        ++ (rows_in ProjectState.planning s
            ++ (rows_in ProjectState.building s
                ++ (rows_in ProjectState.replanning s ++ rows_in ProjectState.integration s))))

abbrev pub skipped : ℕ → ProjectPool → Project → Bool
skipped now pool p = in_claimed p.id pool.claimed || ltb now (or_zero (pool.cooldown_until p.id))

-- The loop of `_claim_next`.
unfoldable pub pick : ℕ → ProjectPool → List Project → Option Project
pick now pool [] = none
pick now pool (p ∷ ps) = if skipped now pool p then pick now pool ps else some p

abbrev pub claim : Option Project → ProjectPool → ProjectPool
claim none pool = pool
claim (some p) pool = record pool { claimed = p.id ∷ pool.claimed }

-- `_claim_next`, at time `now`
unfoldable pub claim_next : ℕ → ProjectPool → State → Option Project × ProjectPool
claim_next now pool s =
    let picked = pick now pool (gather_candidates s) in (picked, claim picked pool)

unfoldable pub clear_transient : ℕ → ProjectPool → ProjectPool
clear_transient i pool = record pool {
  cooldown_until = put i none pool.cooldown_until;
  transient_fails = put i none pool.transient_fails;
}

-- `_safe_status`
unfoldable pub safe_status : ℕ → Detail → State → State
safe_status i detail s = (Projects.set_status_detail i (some detail) s).1

-- The failures in a row, this one included.
abbrev pub streak : Project → ProjectPool → ℕ
streak p pool = or_zero (pool.transient_fails p.id) + 1

-- The optimistic branch of `_handle_crash`: wait, and leave the project as it is.
unfoldable pub back_off :
    ErrorText → ℕ → Project → Exception → ProjectPool → State → ProjectPool × State
back_off et now p exc pool s =
    let n = streak p pool in
    (
      record pool {
        transient_fails = put p.id (some n) pool.transient_fails;
        cooldown_until = put p.id (some (now + backoff n)) pool.cooldown_until;
      },
      safe_status p.id (transient_pause (backoff n) (et.type_name exc) n) s,
    )

-- `update_state(BLOCKED)` and the status that goes with it, in a `try` that swallows.
abbrev pub after_block : Result Project → ℕ → Detail → State → State
after_block (ok _) i detail s = safe_status i detail s
after_block (raise _) i detail s = s

unfoldable pub give_up : ErrorText → Project → Exception → State → State
give_up et p exc s =
    let detail =
      if is_transient_error et exc
      then repeated_transient (et.type_name exc) (et.message exc)
      else crashed p.state (et.type_name exc) (et.message exc) in
    let (r, s') = Projects.update_state p.id ProjectState.blocked s in
    if not (legal_project p.state ProjectState.blocked)
    then safe_status p.id (not_blockable p.state (et.type_name exc)) s
    else after_block r p.id detail s'

-- `_handle_crash`
unfoldable pub handle_crash :
    ErrorText → ℕ → Project → Exception → ProjectPool → State → ProjectPool × State
handle_crash et now p exc pool s =
    if is_transient_error et exc && ltb (streak p pool) max_transient_fails
    then back_off et now p exc pool s
    else (clear_transient p.id pool, give_up et p exc s)

-- `_step` after the tick has ended: whether the worker advanced, the pool, and the state.
abbrev pub note_result :
    ErrorText
    → ℕ
    → Project
    → Result (Option Project)
    → ProjectPool
    → State
    → Bool × ProjectPool × State
note_result et now p (ok updated) pool s = (is_some updated, clear_transient p.id pool, s)
note_result et now p (raise exc) pool s =
    let (pool', s') = handle_crash et now p exc pool s in (true, pool', s')

-- The `finally` of `_step`.
unfoldable pub finish :
    ErrorText
    → ℕ
    → Project
    → Result (Option Project)
    → ProjectPool
    → State
    → Bool × ProjectPool × State
finish et now p r pool s =
    let (advanced, pool', s') = note_result et now p r pool s in
    (advanced, record pool' { claimed = discard p.id pool'.claimed }, s')

abbrev pub run_claimed :
    ErrorText → TickDeps → ℕ → Option Project → ProjectPool → State → Bool × ProjectPool × State
run_claimed et d now none pool s = (false, pool, s)
run_claimed et d now (some p) pool s =
    let (r, s') = advance_project d p s in finish et now p r pool s'

-- `_step` of one worker, with no other worker in between.
unfoldable pub step : ErrorText → TickDeps → ℕ → ProjectPool → State → Bool × ProjectPool × State
step et d now pool s =
    let (picked, pool') = claim_next now pool s in run_claimed et d now picked pool' s
