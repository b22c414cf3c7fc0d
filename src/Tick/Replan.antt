-- ===== src/Tick/Replan.antt =====
-- orchestrator/tick.py: the replanning pass and the final integration.
use ai_dev_swarm.Common.{
  ◌==◌, ltb, not, List, [], ◌∷◌, ◌++◌, Option, none, some, take, sort_by, pos, if◌then◌else◌,
}
use mathlib.Core.List.{reverse}
use ai_dev_swarm.AutoSplit.{predict, developer, tester}
use ai_dev_swarm.Budget.{can_spend}
use ai_dev_swarm.Consolidation.{should_insert_consolidation, build_consolidation_spec, is_done}
use ai_dev_swarm.Schemas.Project.{Project, ProjectState, integration_failed, replanner_escalated}
use ai_dev_swarm.Schemas.Milestone.{Milestone}
use ai_dev_swarm.Schemas.Replanner.{ReplannerAction, noop, amend, split, escalate}
use ai_dev_swarm.Store.State.{World, MilestoneSession, failed_integration, shipped, escalated}
use ai_dev_swarm.Store.Action.{Action, ◌>>=◌, ◌>>◌, pure, gets, query, on_world, catch, send}
use ai_dev_swarm.Store.Milestones
use ai_dev_swarm.Store.Milestones.Graph
use ai_dev_swarm.Store.Tokens.{latest_for}
use ai_dev_swarm.Tick.Tools.{TickDeps}
use ai_dev_swarm.Tick.Moves.{move, block, push, has_repo}

-- `_last_done`: `max` keeps the first of the greatest.
abbrev pub later_of : Milestone → Option Milestone → Option Milestone
later_of m none = some m
later_of m (some best) = some (if ltb m.ordinal best.ordinal then best else m)

unfoldable pub last_done : List Milestone → Option Milestone
last_done [] = none
last_done (m ∷ ms) = if is_done m then later_of m (last_done ms) else last_done ms

abbrev pub some_to_list {ℓ} : {A : Type ℓ} → Option A → List A
some_to_list none = []
some_to_list (some a) = a ∷ []

-- The sessions of one milestone, for the two roles.
abbrev pub sessions_of : World → Milestone → List MilestoneSession
sessions_of w m =
    some_to_list (latest_for m.id developer w) ++ some_to_list (latest_for m.id tester w)

-- `_recent_sessions`
abbrev pub gather : World → List Milestone → List MilestoneSession
gather w [] = []
gather w (m ∷ ms) = sessions_of w m ++ gather w ms

unfoldable pub recent_sessions : World → List Milestone → List MilestoneSession
recent_sessions w milestones = gather w (take 6 (reverse (sort_by (λ m. m.ordinal) milestones)))

-- `_apply_action`
unfoldable pub apply_action : TickDeps → Project → ReplannerAction → Action Project
apply_action d project noop = move d project ProjectState.building
apply_action d project (amend i patch) = do
  catch (Graph.update_spec i patch >> pure tt) (λ _. pure tt)
  move d project ProjectState.building
apply_action d project (split i into) = do
  Graph.replace_with i into
  move d project ProjectState.building
apply_action d project (escalate reason freeze) = do
  send (escalated project.name reason)
  block d project (replanner_escalated reason)

-- Step 1 of `_replan`: the consolidation cadence.
unfoldable pub insert_consolidation : Option Milestone → Action (Unit {0})
insert_consolidation none = pure tt
insert_consolidation (some m) = Graph.insert_after m.id build_consolidation_spec >> pure tt

unfoldable pub consolidate : TickDeps → List Milestone → Action (Unit {0})
consolidate d milestones =
    if should_insert_consolidation d.settings.consolidation_every milestones
    then insert_consolidation (last_done milestones)
    else pure tt

-- Steps 3b to 4: the fast path, the budget gate, and the replanner crew.
unfoldable pub ask_replanner : TickDeps → Project → List Milestone → Milestone → Action Project
ask_replanner d project milestones m =
    if m.retry_count == 0 then move d project ProjectState.building else (do
      affordable ← query (can_spend d.settings (some m.id) (pos 0))
      if not affordable then move d project ProjectState.building else (do
        w ← gets (λ s. s.world)
        action ← on_world (d.replanning_crew project m (recent_sessions w milestones))
        apply_action d project action))

-- Step 3: the cheap split, where it is predicted.
unfoldable pub split_or_ask :
    TickDeps → Project → List Milestone → Milestone → Option ReplannerAction → Action Project
split_or_ask d project milestones m none = ask_replanner d project milestones m
split_or_ask d project milestones m (some cheap_split) = apply_action d project cheap_split

-- Steps 2 and 3.
unfoldable pub replan_next : TickDeps → Project → List Milestone → Option Milestone → Action Project
replan_next d project milestones none = move d project ProjectState.integration
replan_next d project milestones (some m) = do
  cheap_split ← gets (λ s. predict d.settings s.world m)
  split_or_ask d project milestones m cheap_split

-- `_replan`
unfoldable pub replan : TickDeps → Project → Action Project
replan d project = do
  milestones ← Milestones.list_for_project project.id
  consolidate d milestones
  m ← Milestones.next_pending project.id
  replan_next d project milestones m

-- What `_integrate` does after a green gate.
unfoldable pub publish : TickDeps → Project → Action (Unit {0})
publish d project = elim project.github_repo [
  | none ↦ pure tt
  | some url ↦
      if has_repo project then (push d project >> send (shipped project.name url)) else pure tt
]

-- `_integrate`
unfoldable pub integrate : TickDeps → Project → Action Project
integrate d project = do
  on_world (d.for_project project.name)
  ci ← on_world (d.run_ci project.name)
  if not ci.passed
      then (do send (failed_integration project.name); block d project (integration_failed ci.tail))
      else (do publish d project; move d project ProjectState.done)
