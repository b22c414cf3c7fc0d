-- ===== src/Tick/Build.antt =====
-- orchestrator/tick.py: planning, and the build of one milestone.
use ai_dev_swarm.Common.{
  ℕ, ◌+◌, ltb, leb, ◌==◌, Bool, true, false, not, ◌&&◌, List, [], ◌∷◌, ◌++◌, Option, none, some,
  Text, text, length, find, take, pos, if◌then◌else◌,
}
use ai_dev_swarm.Settings.{Settings}
use ai_dev_swarm.Budget.{can_spend}
use ai_dev_swarm.Slugs.{slug}
use ai_dev_swarm.Schemas.Project.{
  Project, ProjectState, MilestoneState, milestone_state_eq, awaiting_your_approval,
  building_milestone, token_cap_exceeded, scope_milestones, scope_cost, milestone_failed,
}
use ai_dev_swarm.Schemas.Milestone.{Milestone, MilestoneBuildResult}
use ai_dev_swarm.Schemas.Exceptions.{Exception, Result, ok, raise, budget_exceeded}
use ai_dev_swarm.Store.State.{
  State, awaits_approval, blocked_token_cap, scope_cap, cost_cap, blocked_on,
}
use ai_dev_swarm.Store.Action.{
  Action, ◌>>=◌, ◌>>◌, pure, gets, query, on_world, send, throw, run_world,
}
use ai_dev_swarm.Store.Projects
use ai_dev_swarm.Store.Milestones
use ai_dev_swarm.Store.Tokens.{by_project}
use ai_dev_swarm.Tick.Tools.{TickDeps}
use ai_dev_swarm.Tick.Moves.{move, block, ensure_repo, push}

-- `_plan`
unfoldable pub plan : TickDeps → Project → Action Project
plan d project = do
  graph ← on_world (d.planning_crew project.id project.spec)
  Milestones.create_many project.id graph
  run_world (d.on_plan project (length graph))
  if d.settings.require_approval
      then (do
        send (awaits_approval project.name (length graph))
        Projects.set_status_detail project.id (some (awaiting_your_approval (length graph)))
        move d project ProjectState.awaiting_approval)
      else move d project ProjectState.building

-- The loop of `_reclaim_and_guard`.
unfoldable pub reclaim : List Milestone → Action (Unit {0})
reclaim [] = pure tt
reclaim (m ∷ ms) =
    (if milestone_state_eq m.state MilestoneState.building
      then Milestones.update_state m.id MilestoneState.pending >> pure tt
      else pure tt)
    >> reclaim ms

-- `next((c for pid, _t, c in by_project() if pid == project.id), 0.0)`
abbrev pub cost_or_zero : Option (ℕ × ℕ × ℕ) → ℕ
cost_or_zero none = 0
cost_or_zero (some (i, tokens, cost)) = cost

unfoldable pub project_cost : ℕ → State → ℕ
project_cost i s = cost_or_zero (find (λ t. t.0 == i) (by_project s))

-- `_scope_guard`
unfoldable pub scope_guard : TickDeps → Project → List Milestone → Action (Option Project)
scope_guard d project milestones =
    let max_ms = d.settings.max_project_milestones in
    let max_cost = d.settings.max_project_cost_usd in
    if ltb 0 max_ms && ltb max_ms (length milestones)
    then (do
      send (scope_cap project.name (length milestones) max_ms)
      blocked ← block d project (scope_milestones (length milestones) max_ms)
      pure (some blocked))
    else (do
      cost ← gets (project_cost project.id)
      if ltb 0 max_cost && d.token_log && ltb max_cost cost
          then (do
            send (cost_cap project.name cost max_cost)
            blocked ← block d project (scope_cost cost max_cost)
            pure (some blocked))
          else pure none)

unfoldable pub reclaim_and_guard : TickDeps → Project → Action (Option Project)
reclaim_and_guard d project = do
  milestones ← Milestones.list_for_project project.id
  reclaim milestones
  scope_guard d project milestones

-- `result.failure_reason or result.summary or "unknown"`
abbrev pub or_text : Text → Text → Text
or_text [] b = b
or_text (c ∷ a) b = c ∷ a

abbrev pub failure_text : MilestoneBuildResult → Text
failure_text result =
    or_text (elim result.failure_reason [ none ↦ [] | some reason ↦ reason ])
      (or_text result.summary (text "unknown"))

-- The test that both failure paths make.
abbrev pub retries_spent : Settings → Milestone → Bool
retries_spent c m = leb c.milestone_retry_limit (m.retry_count + 1)

-- `_handle_build_failure`
unfoldable pub handle_build_failure :
    TickDeps → Project → Milestone → MilestoneBuildResult → Action (Option Project)
handle_build_failure d project m result = do
  let reason = failure_text result
  affordable ← query (can_spend d.settings none (pos 0))
  if affordable then run_world (d.diagnose project m reason) else pure tt
  Milestones.record_attempt m.id false none
  if retries_spent d.settings m
      then (do
        send (blocked_on project.name m.title)
        blocked ← block d project (milestone_failed m.title d.settings.milestone_retry_limit reason)
        pure (some blocked))
      else (do moved ← move d project ProjectState.replanning; pure (some moved))

-- The branch of the per-milestone sanity cap.
unfoldable pub trip_circuit_breaker : TickDeps → Project → Milestone → Action (Option Project)
trip_circuit_breaker d project m = do
  Milestones.record_attempt m.id false none
  if retries_spent d.settings m
      then (do
        send (blocked_token_cap project.name m.title)
        blocked ← block d project (token_cap_exceeded m.title)
        pure (some blocked))
      else (do moved ← move d project ProjectState.replanning; pure (some moved))

abbrev pub commit_message : TickDeps → Milestone → Text
commit_message d m =
    text "feat(" ++ (slug d.characters m.title ++ (text "): " ++ take 70 m.spec.description))

-- From `if result.success` on: commit, record, push, and go to the replanner.
unfoldable pub record_success :
    TickDeps → Project → Milestone → MilestoneBuildResult → Action (Option Project)
record_success d project m result = do
  dirty ← on_world (d.is_dirty project.name)
  commit_hash ←
      (if dirty
        then (do made ← on_world (d.commit_all project.name (commit_message d m)); pure (some made))
        else pure result.commit_hash)
  Milestones.record_attempt m.id true commit_hash
  push d project
  run_world (d.on_milestone_done project m.id m.title)
  moved ← move d project ProjectState.replanning
  pure (some moved)

-- `except BudgetExceeded`: give the milestone back, and pause.
unfoldable pub on_build_exception : Milestone → Exception → Action (Option Project)
on_build_exception m budget_exceeded =
    Milestones.update_state m.id MilestoneState.pending >> pure none
on_build_exception m e = throw e

unfoldable pub after_build :
    TickDeps → Project → Milestone → Result MilestoneBuildResult → Action (Option Project)
after_build d project m (ok result) =
    if result.success
    then record_success d project m result
    else handle_build_failure d project m result
after_build d project m (raise e) = on_build_exception m e

-- From the start of the build proper.
unfoldable pub start_build : TickDeps → Project → Milestone → Action (Option Project)
start_build d project m = do
  Milestones.update_state m.id MilestoneState.building
  Projects.set_status_detail project.id (some (building_milestone m.title))
  on_world (d.for_project project.name)
  project' ← ensure_repo d project
  result ← on_world (λ w. let (r, w') = d.build_crew m w in (ok r, w'))
  after_build d project' m result

unfoldable pub build_milestone : TickDeps → Project → Option Milestone → Action (Option Project)
build_milestone d project none = do
  moved ← move d project ProjectState.integration
  pure (some moved)
build_milestone d project (some m) = do
  today ← query (can_spend d.settings none (pos 0))
  if not today then pure none else (do
    within_cap ← query (can_spend d.settings (some m.id) (pos 0))
    if not within_cap then trip_circuit_breaker d project m else start_build d project m)

abbrev pub unless_blocked : Option Project → Action (Option Project) → Action (Option Project)
unless_blocked none next = next
unless_blocked (some drift) next = pure (some drift)

-- `_build_one_milestone`
unfoldable pub build_one_milestone : TickDeps → Project → Action (Option Project)
build_one_milestone d project = do
  drift ← reclaim_and_guard d project
  unless_blocked drift (do m ← Milestones.next_pending project.id; build_milestone d project m)
