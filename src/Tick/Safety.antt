-- ===== src/Tick/Safety.antt =====
-- The states of the projects under one tick.
use ai_dev_swarm.Common.{
  ℕ, ◌≡◌, refl, ◌∙◌, ap, ◌⊎◌, inl, inr, Bool, true, false, List, Option, none, some, if◌then◌else◌,
}
use ai_dev_swarm.Schemas.Project.{Project, ProjectState}
use ai_dev_swarm.Schemas.Milestone.{Milestone}
use ai_dev_swarm.Schemas.Exceptions.{Result, ok, raise}
use ai_dev_swarm.Store.State.{State}
use ai_dev_swarm.Store.Action.{Action, ◌>>=◌, pure, and_then}
use ai_dev_swarm.Store.Action.Keeps.{Keeps, keeps_rules}
use ai_dev_swarm.Store.Projects.{row}
use ai_dev_swarm.Store.Projects.Rows.{state_at, state_of, same_states, SameStates}
use ai_dev_swarm.Store.Milestones.Frame.{milestone_rules}
use ai_dev_swarm.Tick.{advanced, advance_active, advance_project}
use ai_dev_swarm.Tick.Tools.{TickDeps}
use ai_dev_swarm.Tick.Build.{
  scope_guard, reclaim_and_guard, start_build, build_milestone, unless_blocked, build_one_milestone,
}
use ai_dev_swarm.Tick.Hops.{
  OneHop, Advances, Advances-bind, Advances-then, hop_rules, move-Advances, block-Advances,
  ensure_repo-SameStates, ensure_repo-Yields, SameStates→OneHop, Advances-bind-Yields,
}
use ai_dev_swarm.Tick.Handlers.{
  plan-Advances, after_build-Advances, trip_circuit_breaker-Advances, reclaim-SameStates,
  replan-Advances, integrate-Advances, moved-to,
}

abbrev NotNone : {A : Type 0} → Result (Option A) → Type 0
NotNone (ok none) = ⊥
NotNone _ = Unit

-- A guard either leaves the states alone, or hops and does not return `none`.
record Guards {A : Type 0} (i : ℕ) (st : ProjectState) (m : Action (Option A)) : Type 0 where
  from :
      (s : State)
      → state_at i s ≡ some st
      → SameStates s (m s).1 ⊎ (OneHop i st s (m s).1 × NotNone (m s).0)

option_apart :
    {A : Type 0} (r : Result A) (s : State) → NotNone (and_then r (λ a. pure (some a)) s).0
unfolding pure
option_apart (ok a) s = tt
option_apart (raise e) s = tt

module _ {i : ℕ} {st : ProjectState} where
  Guards-none : {A : Type 0} → Guards i st (pure {A = Option A} none)
  unfolding pure
  Guards-none = record { from = λ s e. inl (λ j. refl) }

  Guards-if :
      {A : Type 0} (b : Bool) (m n : Action (Option A))
      → Guards i st m
      → Guards i st n
      → Guards i st (if b then m else n)
  Guards-if true m n gm gn = gm
  Guards-if false m n gm gn = gn

  Guards-some :
      {A : Type 0} (m : Action A) → Advances i st m → Guards i st (m >>= λ a. pure (some a))
  unfolding ◌>>=◌
  Guards-some m am = record {
    from = λ s e.
        inr
          ((Advances-then m _ am (λ a. search keeps_rules)).from s e, option_apart (m s).0 (m s).1);
  }

  and_then-Guards :
      {A B : Type 0} (r : Result A) (f : A → Action (Option B))
      → ((a : A) → Guards i st (f a))
      → Guards i st (and_then r f)
  and_then-Guards (ok a) f gf = gf a
  and_then-Guards (raise e) f gf = record { from = λ s h. inl (λ j. refl) }

  Guards-bind :
      {A B : Type 0} (m : Action A) (f : A → Action (Option B))
      → Keeps same_states m
      → ((a : A) → Guards i st (f a))
      → Guards i st (m >>= f)
  unfolding ◌>>=◌
  Guards-bind m f km gf = record {
    from = λ s e.
        let before = km.at s in
        elim ((and_then-Guards (m s).0 f gf).from (m s).1 (before i ∙ e)) [
          | inl quiet ↦ inl (λ j. quiet j ∙ before j)
          | inr (after, some_result) ↦ inr (
            record { others = λ j ne. after.others j ne ∙ before j; hop = after.hop },
            some_result,
          )
        ];
  }

ruleset guard_rules = (Guards-none, Guards-if, Guards-some, Guards-bind, hop_rules, block-Advances)

scope_guard-Guards :
    (d : TickDeps) (p : Project) (ms : List Milestone) → Guards p.id p.state (scope_guard d p ms)
unfolding scope_guard
scope_guard-Guards d p ms = search guard_rules depth 14

reclaim_and_guard-Guards :
    (d : TickDeps) (p : Project) → Guards p.id p.state (reclaim_and_guard d p)
unfolding reclaim_and_guard
reclaim_and_guard-Guards d p =
    search (guard_rules, scope_guard-Guards, λ (ms : List Milestone). reclaim-SameStates d p ms)
      depth 10

-- A guard, and then a call that may hop, unless the guard did.
module _ {i : ℕ} {st : ProjectState} (next : Action (Option Project))
    (an : Advances i st next) where
  after_guard :
      (r : Result (Option Project)) (s t : State)
      → state_at i s ≡ some st
      → SameStates s t ⊎ (OneHop i st s t × NotNone r)
      → OneHop i st s (and_then r (λ drift. unless_blocked drift next) t).1
  unfolding pure
  after_guard (ok none) s t e (inl quiet) =
      let after = an.from t (quiet i ∙ e) in
      record { others = λ j ne. after.others j ne ∙ quiet j; hop = after.hop }
  after_guard (ok none) s t e (inr h) = absurd h.1
  after_guard (ok (some p)) s t e (inl quiet) = SameStates→OneHop s t e quiet
  after_guard (ok (some p)) s t e (inr h) = h.0
  after_guard (raise x) s t e (inl quiet) = SameStates→OneHop s t e quiet
  after_guard (raise x) s t e (inr h) = h.0

  unless_blocked-Advances :
      (guard : Action (Option Project))
      → Guards i st guard
      → Advances i st (guard >>= λ drift. unless_blocked drift next)
  unfolding ◌>>=◌
  unless_blocked-Advances guard g = record {
    from = λ s e. after_guard (guard s).0 s (guard s).1 e (g.from s e);
  }

module _ (d : TickDeps) (p : Project) where
  start_build-Advances : (m : Milestone) → Advances p.id p.state (start_build d p m)
  unfolding start_build
  start_build-Advances m = Advances-bind _ _ (search milestone_rules) λ _.
      Advances-bind _ _ (search hop_rules) λ _. Advances-bind _ _ (search keeps_rules) λ _.
        Advances-bind-Yields _ _ (ensure_repo-SameStates d p) (ensure_repo-Yields d p) λ q same.
          Advances-bind _ _ (search keeps_rules)
            λ r. moved-to p q _ same (after_build-Advances d q m r)

  build_milestone-Advances : (o : Option Milestone) → Advances p.id p.state (build_milestone d p o)
  unfolding build_milestone
  build_milestone-Advances none = search (hop_rules, Advances-then) depth 8
  build_milestone-Advances (some m) =
      search
        (hop_rules, start_build-Advances, λ (x : Milestone). trip_circuit_breaker-Advances d p x)
        depth 12

  build_one_milestone-Advances : Advances p.id p.state (build_one_milestone d p)
  unfolding build_one_milestone
  build_one_milestone-Advances =
      unless_blocked-Advances _
        (Advances-bind _ _ (search milestone_rules) build_milestone-Advances)
        (reclaim_and_guard d p) (reclaim_and_guard-Guards d p)

  advanced-Advances :
      (m : Action Project) → Advances p.id p.state m → Advances p.id p.state (advanced m)
  advanced-Advances m am = Advances-then m _ am (λ q. search keeps_rules)

  advance_active-Advances : (st : ProjectState) → Advances p.id p.state (advance_active d p st)
  unfolding advance_active
  advance_active-Advances ProjectState.queued = advanced-Advances _ (move-Advances d p _)
  advance_active-Advances ProjectState.planning = advanced-Advances _ (plan-Advances d p)
  advance_active-Advances ProjectState.building = build_one_milestone-Advances
  advance_active-Advances ProjectState.replanning = advanced-Advances _ (replan-Advances d p)
  advance_active-Advances ProjectState.integration = advanced-Advances _ (integrate-Advances d p)
  advance_active-Advances _ = search hop_rules

  advance_project-Advances : Advances p.id p.state (advance_project d p)
  unfolding advance_project
  advance_project-Advances = search (hop_rules, Advances-then, advance_active-Advances) depth 14

-- One tick of a stored project, whatever its collaborators do and however it ends, leaves the
-- states of all other projects as they were, and leaves its own state as it was or moves it along
-- one edge of PROJECT_TRANSITIONS.
pub advance_project-OneHop :
    (d : TickDeps) (p : Project) (s : State)
    → row p.id s ≡ some p
    → OneHop p.id p.state s (advance_project d p s).1
advance_project-OneHop d p s stored = (advance_project-Advances d p).from s (ap state_of stored)
