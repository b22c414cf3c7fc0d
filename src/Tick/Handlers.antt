-- ===== src/Tick/Handlers.antt =====
-- Each handler of the tick makes its project hop at most once.
use ai_dev_swarm.Common.{◌≡◌, List, [], ◌∷◌, Option, none, some, if◌then◌else◌}
use ai_dev_swarm.Schemas.Project.{Project}
use ai_dev_swarm.Schemas.Milestone.{Milestone, MilestoneBuildResult}
use ai_dev_swarm.Schemas.Replanner.{ReplannerAction, noop, amend, split, escalate}
use ai_dev_swarm.Schemas.Exceptions.{Exception, Result, ok, raise, budget_exceeded}
use ai_dev_swarm.Store.State.{shipped}
use ai_dev_swarm.Store.Action.{Action, ◌>>◌, pure, send}
use ai_dev_swarm.Store.Action.Keeps.{Keeps, keeps_rules}
use ai_dev_swarm.Store.Projects.Rows.{same_states}
use ai_dev_swarm.Store.Milestones.Frame.{milestone_rules}
use ai_dev_swarm.Tick.Tools.{TickDeps}
use ai_dev_swarm.Tick.Moves.{has_repo, push}
use ai_dev_swarm.Tick.Build.{
  plan, reclaim, handle_build_failure, trip_circuit_breaker, record_success, on_build_exception,
  after_build,
}
use ai_dev_swarm.Tick.Replan.{
  apply_action, insert_consolidation, consolidate, ask_replanner, split_or_ask, replan_next, replan,
  publish, integrate,
}
use ai_dev_swarm.Tick.Hops.{
  Advances, Advances-quiet, Advances-if, Advances-then, hop_rules, move-Advances, block-Advances,
  push-SameStates,
}

module _ (d : TickDeps) (p : Project) where
  pub plan-Advances : Advances p.id p.state (plan d p)
  unfolding plan
  plan-Advances = search hop_rules depth 16

  pub handle_build_failure-Advances :
      (m : Milestone) (r : MilestoneBuildResult)
      → Advances p.id p.state (handle_build_failure d p m r)
  unfolding handle_build_failure
  handle_build_failure-Advances m r = search (hop_rules, block-Advances, Advances-then) depth 16

  pub trip_circuit_breaker-Advances :
      (m : Milestone) → Advances p.id p.state (trip_circuit_breaker d p m)
  unfolding trip_circuit_breaker
  trip_circuit_breaker-Advances m = search (hop_rules, block-Advances, Advances-then) depth 16

  pub record_success-Advances :
      (m : Milestone) (r : MilestoneBuildResult) → Advances p.id p.state (record_success d p m r)
  unfolding record_success
  record_success-Advances m r = search (hop_rules, push-SameStates, Advances-then) depth 20

  pub on_build_exception-SameStates :
      (m : Milestone) (e : Exception) → Keeps same_states (on_build_exception m e)
  unfolding on_build_exception
  on_build_exception-SameStates m budget_exceeded = search (keeps_rules, milestone_rules)
  on_build_exception-SameStates m e = search keeps_rules

  pub after_build-Advances :
      (m : Milestone) (r : Result MilestoneBuildResult)
      → Advances p.id p.state (after_build d p m r)
  unfolding after_build
  after_build-Advances m (ok r) =
      Advances-if r.success _ _ (record_success-Advances m r) (handle_build_failure-Advances m r)
  after_build-Advances m (raise e) = Advances-quiet _ (on_build_exception-SameStates m e)

  pub reclaim-SameStates : (ms : List Milestone) → Keeps same_states (reclaim ms)
  unfolding reclaim
  reclaim-SameStates [] = search keeps_rules
  reclaim-SameStates (m ∷ ms) =
      let rest = reclaim-SameStates ms in search (keeps_rules, milestone_rules) depth 8

  pub apply_action-Advances :
      (action : ReplannerAction) → Advances p.id p.state (apply_action d p action)
  unfolding apply_action
  apply_action-Advances noop = move-Advances d p _
  apply_action-Advances (amend i patch) = search hop_rules depth 10
  apply_action-Advances (split i into) = search hop_rules depth 10
  apply_action-Advances (escalate reason freeze) = search (hop_rules, block-Advances) depth 10

  pub insert_consolidation-SameStates :
      (o : Option Milestone) → Keeps same_states (insert_consolidation o)
  unfolding insert_consolidation
  insert_consolidation-SameStates none = search keeps_rules
  insert_consolidation-SameStates (some m) = search (keeps_rules, milestone_rules)

  pub consolidate-SameStates : (ms : List Milestone) → Keeps same_states (consolidate d ms)
  unfolding consolidate
  consolidate-SameStates ms = search (keeps_rules, insert_consolidation-SameStates)

  pub ask_replanner-Advances :
      (ms : List Milestone) (m : Milestone) → Advances p.id p.state (ask_replanner d p ms m)
  unfolding ask_replanner
  ask_replanner-Advances ms m = search (hop_rules, apply_action-Advances) depth 16

  pub split_or_ask-Advances :
      (ms : List Milestone) (m : Milestone) (o : Option ReplannerAction)
      → Advances p.id p.state (split_or_ask d p ms m o)
  unfolding split_or_ask
  split_or_ask-Advances ms m none = ask_replanner-Advances ms m
  split_or_ask-Advances ms m (some a) = apply_action-Advances a

  pub replan_next-Advances :
      (ms : List Milestone) (o : Option Milestone) → Advances p.id p.state (replan_next d p ms o)
  unfolding replan_next
  replan_next-Advances ms none = move-Advances d p _
  replan_next-Advances ms (some m) = search (hop_rules, split_or_ask-Advances) depth 10

  pub replan-Advances : Advances p.id p.state (replan d p)
  unfolding replan
  replan-Advances = search (hop_rules, consolidate-SameStates, replan_next-Advances) depth 12

  pub publish-SameStates : Keeps same_states (publish d p)
  unfolding publish
  publish-SameStates =
      elim p.github_repo
        as (λ o. Keeps same_states (elim o [
          | none ↦ pure tt
          | some url ↦ if has_repo p then (push d p >> send (shipped p.name url)) else pure tt
        ])) [ none ↦ search keeps_rules | some url ↦ search (keeps_rules, push-SameStates) depth 8 ]

  pub integrate-Advances : Advances p.id p.state (integrate d p)
  unfolding integrate
  integrate-Advances = search (hop_rules, block-Advances, publish-SameStates) depth 14

-- The same for a project with the id and the state of another.
pub moved-to :
    {A : Type 0} (p q : Project) (m : Action A)
    → (q.id ≡ p.id) × (q.state ≡ p.state)
    → Advances q.id q.state m
    → Advances p.id p.state m
moved-to p q m (i, st) h = rw (← i, ← st) h
