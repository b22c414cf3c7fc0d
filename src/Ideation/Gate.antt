-- ===== src/Ideation/Gate.antt =====
-- What an ideation run may add to the pool.
use ai_dev_swarm.Common.{
  ℕ, zero, suc, ◌+◌, ◌≤◌, ◌≡◌, refl, ◌∙◌, ap, subst, Bool, true, false, not, ◌&&◌, List, [], ◌∷◌,
  none, some, is_some, All, select, arith, Bool-cases, Option-cases, if◌then◌else◌, ◌⊎◌, inl, inr,
  All-map, select-Both, All-both, All-select,
}
use mathlib.Core.List.{Mem}
use ai_dev_swarm.Schemas.Exceptions.{Result, ok, raise}
use ai_dev_swarm.Schemas.Idea.{ScoredIdea}
use ai_dev_swarm.Store.State.{State}
use ai_dev_swarm.Store.Action.{Action, ◌>>=◌, ◌>>◌, pure, gets, modify, and_then}
use ai_dev_swarm.Store.Projects
use ai_dev_swarm.Store.Projects.{list_all}
use ai_dev_swarm.Router.{make_id}
use ai_dev_swarm.Ideation.Crew.{IdeationDeps, run}
use ai_dev_swarm.Ideation.Rounds.{
  Placed, enumerate, passes, best_of, persist_evaluations, accept, on_scored, or_no_ideas,
  ideate_round, rounds, run_ideation_once, swarm_has_work, project_from_idea,
}
use ai_dev_swarm.Ideation.Judged.{
  Judged, AllJudged, Unanswered, or_no_ideas-Keeps, or_no_ideas-Judged, persisted,
}
use ai_dev_swarm.Ideation.Idle.{AllTerminal, idle-AllTerminal}
use ai_dev_swarm.Ideation.Verdict.{
  Unlike, best_of-All, best_of-Highest, All-enumerate, enumerate-All, All-Mem,
}

-- How a run queues a project: `start` is the state in which its last round began, with the same
-- projects as `s`, and `ideas` what the crew returned in that round.
pub record Queued {D : Type 0} (d : IdeationDeps D) (s t : State) : Type 0 where
  pub start : State
  pub ideas : List ScoredIdea
  pub best : ScoredIdea
  pub stage : State
  pub same_rows : start.projects ≡ s.projects
  pub answered : (or_no_ideas (run d) start).0 ≡ ok ideas
  pub proposed : Mem best ideas
  pub added : t.projects ≡ project_from_idea d.prices.characters best stage ∷ s.projects
  pub unrejected : best.rejected_reason ≡ none
  pub high_enough : d.settings.ideation_min_score ≤ best.total
  pub highest :
      All (λ x. passes d.settings.ideation_min_score x ≡ true → x.total ≤ best.total) ideas
  pub unlike : Unlike d.prices.characters s.projects best.idea ⊎ Unanswered d start best.idea

passes-parts :
    (m : ℕ) (x : ScoredIdea) → passes m x ≡ true → (m ≤ x.total) × (x.rejected_reason ≡ none)
passes-parts m x h = elim (Option-cases x.rejected_reason) [
  | inl e ↦ (ground arith, e)
  | inr (r, e) ↦ absurd (ground arith)
]

module _ {D : Type 0} (d : IdeationDeps D) (round : ℕ) where
  -- What a round leaves, by its result.
  Ended : State → Result Bool → State → Type 0
  Ended s (ok true) t = Queued d s t
  Ended s (ok false) t = t.projects ≡ s.projects
  Ended s (raise e) t = t.projects ≡ s.projects

  module _ (s start : State) (ideas : List ScoredIdea) (same_rows : start.projects ≡ s.projects)
      (answered : (or_no_ideas (run d) start).0 ≡ ok ideas) where
    -- An idea of the crew's that passes, and that is unlike every project.
    Chosen : ScoredIdea → Type 0
    Chosen x =
        Mem x ideas × Judged d start s.projects x × (passes d.settings.ideation_min_score x ≡ true)

    Highest : ScoredIdea → Type 0
    Highest best =
        All (λ x. passes d.settings.ideation_min_score x ≡ true → x.total ≤ best.total) ideas

    pick_up :
        (best : ScoredIdea) (stage t : State)
        → Chosen best
        → Highest best
        → t.projects ≡ project_from_idea d.prices.characters best stage ∷ s.projects
        → Queued d s t
    unfolding Chosen Highest
    pick_up best stage t (m, judged, pass) highest added =
        let (enough, unrejected) = passes-parts d.settings.ideation_min_score best pass in
        record {
          start = start;
          ideas = ideas;
          best = best;
          stage = stage;
          same_rows = same_rows;
          answered = answered;
          proposed = m;
          added = added;
          unrejected = unrejected;
          high_enough = enough;
          highest = highest;
          unlike = judged unrejected;
        }

    created-Ended :
        (best : Placed) (u v : State)
        → v.projects ≡ s.projects
        → Chosen best.1
        → Highest best.1
        → (f : State → State) → ((w : State) → (f w).projects ≡ w.projects)
        → (let m =
              Projects.create (project_from_idea d.prices.characters best.1 u)
              >> (modify f >> pure true) in
            Ended s (m v).0 (m v).1)
    unfolding Projects.create ◌>>=◌ modify pure project_from_idea Ended
    created-Ended best u v same chosen highest f keeps =
        elim (Bool-cases (is_some (Projects.row u.next_id v))) [
          | inl e ↦ rw e same
          | inr e ↦ rw e (
              pick_up best.1 u _ chosen highest
                (keeps _ ∙ ap (λ ps. project_from_idea d.prices.characters best.1 u ∷ ps) same))
        ]

    accept-Ended :
        (scored passing : List Placed) (u : State)
        → u.projects ≡ s.projects
        → ((Q : ScoredIdea → Type 0)
            → All (λ x. Q x.1) passing
            → All (λ x. passes d.settings.ideation_min_score x ≡ true → Q x) ideas)
        → All (λ x. Chosen x.1) passing
        → Ended s (accept d round scored passing u).0 (accept d round scored passing u).1
    unfolding accept modify pure gets make_id ◌>>=◌ Ended Highest project_from_idea
    accept-Ended scored [] u same covers h = persisted round none scored u ∙ same
    accept-Ended scored (x ∷ passing) u same covers (hx, h) =
        let best = best_of x passing in
        created-Ended best u (record u { next_id = u.next_id + 1 }) same
          (best_of-All (λ y. Chosen y.1) x passing hx h)
          (covers (λ y. y.total ≤ best.1.total) (best_of-Highest x passing))
          (persist_evaluations round (some (best.0, u.next_id)) scored)
          (persisted round (some (best.0, u.next_id)) scored)

  covers :
      (ideas : List ScoredIdea) (Q : ScoredIdea → Type 0)
      → All
          (λ x. Q x.1)
          (select (λ x. passes d.settings.ideation_min_score x.1) (enumerate 0 ideas))
      → All (λ x. passes d.settings.ideation_min_score x ≡ true → Q x) ideas
  covers ideas Q h = enumerate-All _ 0 ideas (All-select (λ x. Q x.1) _ (enumerate 0 ideas) h)

  chosen :
      (s start : State) (ideas : List ScoredIdea) (k : start.projects ≡ s.projects)
      (a : (or_no_ideas (run d) start).0 ≡ ok ideas)
      → AllJudged d start s.projects ideas
      → All
          (λ x. Chosen s start ideas k a x.1)
          (select (λ x. passes d.settings.ideation_min_score x.1) (enumerate 0 ideas))
  unfolding Chosen
  chosen s start ideas k a judged =
      All-map _ _ _ (λ x (h, p). (h.0, h.1, p))
        (select-Both _ _ (enumerate 0 ideas) (
          All-enumerate (λ x. Mem x ideas × Judged d start s.projects x) 0 ideas
            (All-both _ _ ideas (All-Mem ideas) judged)))

  on_scored-Ended :
      (s start : State) (ideas : List ScoredIdea) (u : State)
      → start.projects ≡ s.projects
      → (or_no_ideas (run d) start).0 ≡ ok ideas
      → u.projects ≡ s.projects
      → AllJudged d start s.projects ideas
      → Ended s (on_scored d round ideas u).0 (on_scored d round ideas u).1
  unfolding pure Ended
  on_scored-Ended s start [] u k a same judged = same
  on_scored-Ended s start (x ∷ ideas) u k a same judged =
      accept-Ended s start (x ∷ ideas) k a _ _ u same (covers (x ∷ ideas))
        (chosen s start (x ∷ ideas) k a judged)

  ideas-Ended :
      (s start : State) (r : Result (List ScoredIdea)) (u : State)
      → start.projects ≡ s.projects
      → (or_no_ideas (run d) start).0 ≡ r
      → u.projects ≡ s.projects
      → ((ideas : List ScoredIdea) → r ≡ ok ideas → AllJudged d start s.projects ideas)
      → Ended s (and_then r (on_scored d round) u).0 (and_then r (on_scored d round) u).1
  unfolding Ended
  ideas-Ended s start (ok ideas) u k a same judged =
      on_scored-Ended s start ideas u k a same (judged ideas refl)
  ideas-Ended s start (raise e) u k a same judged = same

  -- What one round does, from a state with the projects of `s`.
  ideate_round-Ended :
      (s start : State)
      → start.projects ≡ s.projects
      → Ended s (ideate_round d round start).0 (ideate_round d round start).1
  unfolding ideate_round ◌>>=◌
  ideate_round-Ended s start k =
      let same : (or_no_ideas (run d) start).1.projects ≡ s.projects =
        (or_no_ideas-Keeps d).at start ∙ k in
      ideas-Ended s start _ _ k refl same
        (λ ideas e. subst (λ ps. AllJudged d start ps ideas) k (or_no_ideas-Judged d start ideas e))

-- What a run may do to the pool.
abbrev pub Ideated : {D : Type 0} → IdeationDeps D → State → State → Type 0
Ideated d s t = (t.projects ≡ s.projects) ⊎ Queued d s t

module _ {D : Type 0} (d : IdeationDeps D) where
  next_round-Ideated :
      (round : ℕ) (s : State) (rest : Action (Unit {0}))
      → ((u : State) → u.projects ≡ s.projects → Ideated d s (rest u).1)
      → (r : Result Bool) (u : State) → Ended d round s r u
      → Ideated d s (and_then r (λ queued. if queued then pure tt else rest) u).1
  unfolding Ended pure
  next_round-Ideated round s rest f (ok true) u h = inr h
  next_round-Ideated round s rest f (ok false) u h = f u h
  next_round-Ideated round s rest f (raise e) u h = inl h

  rounds-Ideated :
      (left round : ℕ) (s start : State)
      → start.projects ≡ s.projects
      → Ideated d s (rounds d round left start).1
  unfolding rounds pure ◌>>=◌
  rounds-Ideated zero round s start k = inl k
  rounds-Ideated (suc left) round s start k =
      next_round-Ideated round s (rounds d (round + 1) left) (rounds-Ideated left (round + 1) s)
        (ideate_round d round start).0 (ideate_round d round start).1
        (ideate_round-Ended d round s start k)

-- What a run may do to the pool, by whether it was forced.
abbrev pub IdeatedBy : {D : Type 0} → IdeationDeps D → Bool → State → State → Type 0
IdeatedBy d force s t =
    (t.projects ≡ s.projects) ⊎ (Queued d s t × ((force ≡ true) ⊎ AllTerminal s))

with_reason :
    {D : Type 0} (d : IdeationDeps D) (force : Bool) (s t : State)
    → (force ≡ true) ⊎ AllTerminal s
    → Ideated d s t
    → IdeatedBy d force s t
with_reason d force s t h (inl k) = inl k
with_reason d force s t h (inr q) = inr (q, h)

reason :
    (force : Bool) (s : State)
    → (not force && swarm_has_work s) ≡ false
    → (force ≡ true) ⊎ AllTerminal s
reason true s h = inl refl
reason false s h = inr (idle-AllTerminal s h)

-- A run of ideation leaves the projects as they are, or adds one, queued project, and this only if
-- it was forced or every project is done or killed. The project is made of an idea that the crew
-- returned in a round of the run, which no one rejected, whose total is at least the gate and at
-- least that of every idea of the round that passes, and whose title and summary, unless they have
-- no words, are not close to those of any project of the pool, or could not be compared: the read
-- of the pool raised when the idea's turn came in that round.
pub run_ideation_once-Ideated :
    {D : Type 0} (d : IdeationDeps D) (force : Bool) (s : State)
    → IdeatedBy d force s (run_ideation_once d force s).1
unfolding run_ideation_once gets ◌>>=◌ pure
run_ideation_once-Ideated d force s = elim (Bool-cases (not force && swarm_has_work s)) [
  | inl h ↦ rw h (inl refl)
  | inr h ↦ rw h (
      with_reason d force s _ (reason force s h)
        (rounds-Ideated d d.settings.ideation_max_rounds 1 s s refl))
]
