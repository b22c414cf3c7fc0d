-- ===== src/Schemas/Transitions/Lifecycle.antt =====
-- What the two tables of schemas/state_machine.py mean as graphs.
use ai_dev_swarm.Common.{ℕ, suc, true, false, ◌≡◌, refl, ◌↔◌, [], arith}
use ai_dev_swarm.Schemas.Exceptions.{ok}
use ai_dev_swarm.Schemas.Project.{ProjectState, MilestoneState, terminal_project}
use ai_dev_swarm.Schemas.Transitions.{
  legal_milestone, assert_legal_project, legal_project_successors,
}

-- The states that a project can pass through, by hops that the guard lets through.
pub data Route : ProjectState → ProjectState → Type 0 where
  here : {s : ProjectState} → Route s s
  hop : {s t u : ProjectState} → assert_legal_project s t ≡ ok tt → Route t u → Route s u

-- How many hops a route has.
pub hops : {s t : ProjectState} → Route s t → ℕ
hops here = 0
hops (hop _ r) = suc (hops r)

-- The states that a milestone can pass through.
pub data MilestonePath (s : MilestoneState) : MilestoneState → Type 0 where
  stay : MilestonePath s s
  step : {t u : MilestoneState} → MilestonePath s t → legal_milestone t u ≡ true → MilestonePath s u

from_integration : Route ProjectState.integration ProjectState.done
unfolding assert_legal_project
from_integration = hop refl here

from_building : Route ProjectState.building ProjectState.done
unfolding assert_legal_project
from_building = hop refl from_integration

-- No project is stuck: from every state that is not terminal there is a sequence of legal hops
-- to `done` and one to `killed`.
pub not_stuck :
    (s : ProjectState)
    → terminal_project s ≡ false
    → Route s ProjectState.done × Route s ProjectState.killed
unfolding assert_legal_project
not_stuck ProjectState.queued h =
    (hop {t = ProjectState.planning} refl (hop refl from_building), hop refl here)
not_stuck ProjectState.planning h = (hop refl from_building, hop refl here)
not_stuck ProjectState.awaiting_approval h = (hop refl from_building, hop refl here)
not_stuck ProjectState.building h = (from_building, hop refl here)
not_stuck ProjectState.replanning h = (hop refl from_integration, hop refl here)
not_stuck ProjectState.integration h = (from_integration, hop refl here)
not_stuck ProjectState.blocked h = (hop refl from_building, hop refl here)
not_stuck ProjectState.done h = cc
not_stuck ProjectState.killed h = cc

-- A project state is terminal exactly when it has no legal successor.
terminal_iff_no_successors :
    (s : ProjectState) → (terminal_project s ≡ true) ↔ (legal_project_successors s ≡ [])
unfolding legal_project_successors
terminal_iff_no_successors ProjectState.done = (λ _. refl, λ _. refl)
terminal_iff_no_successors ProjectState.killed = (λ _. refl, λ _. refl)
terminal_iff_no_successors _ = (λ h. cc, λ h. cc)

no_hop : (s t : ProjectState) → terminal_project s ≡ true → ¬ (assert_legal_project s t ≡ ok tt)
unfolding assert_legal_project
no_hop s t h e = ground arith

-- A terminal project stays where it is: every sequence of legal hops from it is empty.
pub terminal_stays :
    {s t : ProjectState} → terminal_project s ≡ true → (r : Route s t) → (hops r ≡ 0) × (s ≡ t)
unfolding hops
terminal_stays h here = (refl, refl)
terminal_stays h (hop e p) = absurd (no_hop _ _ h e)

-- A finished milestone is never taken up again: every sequence of legal hops from it is empty.
done_stays : {t : MilestoneState} → MilestonePath MilestoneState.done t → t ≡ MilestoneState.done
done_stays stay = refl
done_stays (step {t} p h) = let e = done_stays p in ground arith
