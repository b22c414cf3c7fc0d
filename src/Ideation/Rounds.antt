-- ===== src/Ideation/Rounds.antt =====
-- orchestrator/orchestrator.py: the ideation rounds. One run holds the ideation lock from its start
-- to its end, so runs follow one another.
use ai_dev_swarm.Common.{
  ℕ, zero, suc, ◌+◌, ◌==◌, leb, ltb, Bool, true, false, not, ◌&&◌, List, [], ◌∷◌, ◌++◌, Option,
  none, some, is_some, select, if◌then◌else◌,
}
use ai_dev_swarm.Slugs.{Characters, project_slug}
use ai_dev_swarm.Schemas.Idea.{ScoredIdea, from_scored, IdeaEvaluation}
use ai_dev_swarm.Schemas.Project.{Project, ProjectState}
use ai_dev_swarm.Store.State.{State}
use ai_dev_swarm.Store.Action.{Action, ◌>>=◌, ◌>>◌, pure, gets, modify, catch}
use ai_dev_swarm.Store.Projects
use ai_dev_swarm.Store.Projects.{active_row, rows_in}
use ai_dev_swarm.Router.{make_id, any_rows}
use ai_dev_swarm.Ideation.Crew.{IdeationDeps, run}

-- `_swarm_has_work`
unfoldable pub swarm_has_work : State → Bool
swarm_has_work s =
    if is_some (active_row s)
    then true
    else if any_rows (rows_in ProjectState.queued s)
    then true
    else any_rows (rows_in ProjectState.blocked s)

-- `_project_from_idea`, and the defaults of `Project`.
unfoldable pub project_from_idea : Characters → ScoredIdea → State → Project
project_from_idea ch best s = record {
  id = s.next_id;
  name = project_slug ch best.idea.title;
  spec = record {
    title = best.idea.title;
    summary = best.idea.summary;
    rationale = best.idea.rationale;
    stack = best.idea.stack;
    tags = best.idea.tags;
    score = best.total;
  };
  state = ProjectState.queued;
  github_repo = none;
  status_detail = none;
  is_paused = false;
  created_at = s.now;
  updated_at = s.now;
}

-- Python tells the accepted object from the others by identity: here by its place in the list.
abbrev pub Placed : Type 0
Placed = ℕ × ScoredIdea

unfoldable pub enumerate : ℕ → List ScoredIdea → List Placed
enumerate i [] = []
enumerate i (s ∷ ss) = (i, s) ∷ enumerate (i + 1) ss

-- `s.total >= min_score and s.rejected_reason is None`
abbrev pub passes : ℕ → ScoredIdea → Bool
passes min_score s = leb min_score s.total && not (is_some s.rejected_reason)

-- `max(passing, key=total)`: the first of the highest.
abbrev pub higher : Placed → Placed → Placed
higher best s = if ltb best.1.total s.1.total then s else best

unfoldable pub best_of : Placed → List Placed → Placed
best_of best [] = best
best_of best (s ∷ ss) = best_of (higher best s) ss

-- `_persist_evaluations`; the place and the project of the accepted idea, if there is one.
abbrev pub verdict : ℕ → Option (ℕ × ℕ) → Placed → IdeaEvaluation
verdict round none (i, s) = from_scored s round false none
verdict round (some (accepted, project_id)) (i, s) =
    if i == accepted
    then from_scored s round true (some project_id)
    else from_scored s round false none

unfoldable pub persist_evaluations : ℕ → Option (ℕ × ℕ) → List Placed → State → State
persist_evaluations round accepted [] s = s
persist_evaluations round accepted (p ∷ ps) s =
    persist_evaluations round accepted ps
      (record s { evaluations = s.evaluations ++ verdict round accepted p ∷ [] })

-- The body of the `try` of `_ideate_round`: only the crew's exceptions are caught.
abbrev pub or_no_ideas : Action (List ScoredIdea) → Action (List ScoredIdea)
or_no_ideas m = catch m (λ _. pure [])

module _ {D : Type 0} where
  -- The end of a round with ideas, by those that pass.
  unfoldable pub accept : IdeationDeps D → ℕ → List Placed → List Placed → Action Bool
  accept d round scored [] = do modify (persist_evaluations round none scored); pure false
  accept d round scored (s ∷ passing) = do
    let best = best_of s passing
    project ← gets (project_from_idea d.prices.characters best.1)
    make_id
    Projects.create project
    modify (persist_evaluations round (some (best.0, project.id)) scored)
    pure true

  abbrev pub on_scored : IdeationDeps D → ℕ → List ScoredIdea → Action Bool
  on_scored d round [] = pure false
  on_scored d round (s ∷ ss) =
      accept d round (enumerate 0 (s ∷ ss))
        (select (λ p. passes d.settings.ideation_min_score p.1) (enumerate 0 (s ∷ ss)))

  -- `_ideate_round`
  unfoldable pub ideate_round : IdeationDeps D → ℕ → Action Bool
  ideate_round d round = do scored ← or_no_ideas (run d); on_scored d round scored

  -- The loop over the rounds that are left.
  unfoldable pub rounds : IdeationDeps D → ℕ → ℕ → Action (Unit {0})
  rounds d round zero = pure tt
  rounds d round (suc left) = do
    let rest = rounds d (round + 1) left
    queued ← ideate_round d round
    if queued then pure tt else rest

  -- `_run_ideation_once`
  unfoldable pub run_ideation_once : IdeationDeps D → Bool → Action (Unit {0})
  run_ideation_once d force = do
    busy ← gets swarm_has_work
    if not force && busy then pure tt else rounds d 1 d.settings.ideation_max_rounds
