-- ===== src/Ideation/Judged.antt =====
-- What the ideation crew leaves and returns: the projects as they are, and ideas judged against
-- them.
use ai_dev_swarm.Common.{
  ℕ, ◌≡◌, refl, ◌∙◌, sym, ap, subst, ◌⊎◌, inl, inr, All-map, List, [], ◌∷◌, Option, none, some, All,
  Text,
}
use ai_dev_swarm.Schemas.Exceptions.{ok}
use ai_dev_swarm.Schemas.Idea.{Idea, ScoredIdea}
use ai_dev_swarm.Schemas.Project.{Project}
use ai_dev_swarm.Store.State.{State}
use ai_dev_swarm.Store.Action.{pure, modify}
use ai_dev_swarm.Store.Action.Keeps.{Keeps, keeps_rules}
use ai_dev_swarm.Store.Action.Runs.{Runs, to_Runs, bind-Runs, pure-Runs, catch-Runs}
use ai_dev_swarm.Store.Tokens.{record_tokens}
use ai_dev_swarm.Spend.{Prices, record_spend, record_crew_spend}
use ai_dev_swarm.Ideation.Crew.{IdeationDeps, apply_novelty, apply_novelty_to, graded_ideas, run}
use ai_dev_swarm.Ideation.Rounds.{Placed, persist_evaluations, or_no_ideas}
use ai_dev_swarm.Ideation.Verdict.{Unlike}
use ai_dev_swarm.Ideation.Lookup.{same_projects, Unread, apply_to-Keeps, apply_to-Compared}

record_spend-Keeps :
    (p : Prices) (i m : Option ℕ) (role model : Text) (prompt completion : ℕ) (cost : Option ℕ)
    → Keeps same_projects (record_spend p i m role model prompt completion cost)
unfolding record_spend modify record_tokens
record_spend-Keeps p i m role model prompt completion cost = record { at = λ s. refl }

record_crew_spend-Keeps :
    (p : Prices) (usage : Option (ℕ × ℕ)) (i m : Option ℕ) (role model : Text)
    → Keeps same_projects (record_crew_spend p usage i m role model)
unfolding record_crew_spend
record_crew_spend-Keeps p none i m role model = search keeps_rules
record_crew_spend-Keeps p (some usage) i m role model = search (keeps_rules, record_spend-Keeps)

pub persisted :
    (round : ℕ) (a : Option (ℕ × ℕ)) (ps : List Placed) (s : State)
    → (persist_evaluations round a ps s).projects ≡ s.projects
unfolding persist_evaluations
persisted round a [] s = refl
persisted round a (p ∷ ps) s = persisted round a ps _

module _ {D : Type 0} (d : IdeationDeps D) where
  apply_novelty-Keeps : (scored : ScoredIdea) → Keeps same_projects (apply_novelty d scored)
  unfolding apply_novelty
  apply_novelty-Keeps scored = search keeps_rules

  apply_novelty_to-Keeps : (ss : List ScoredIdea) → Keeps same_projects (apply_novelty_to d ss)
  unfolding apply_novelty_to
  apply_novelty_to-Keeps [] = search keeps_rules
  apply_novelty_to-Keeps (s ∷ ss) =
      let rest = apply_novelty_to-Keeps ss in search (keeps_rules, apply_novelty-Keeps) depth 8

  graded_ideas-Keeps : Keeps same_projects (graded_ideas d)
  unfolding graded_ideas
  graded_ideas-Keeps =
      search (keeps_rules, record_crew_spend-Keeps, apply_novelty_to-Keeps) depth 12

  run-Keeps : Keeps same_projects (run d)
  unfolding run
  run-Keeps = search (keeps_rules, graded_ideas-Keeps, apply_to-Keeps)

  pub or_no_ideas-Keeps : Keeps same_projects (or_no_ideas (run d))
  or_no_ideas-Keeps = search (keeps_rules, run-Keeps)

  -- In the crew's run that starts in `start`, the read of the history raised when the turn of the
  -- idea came.
  pub record Unanswered (start : State) (idea : Idea) : Type 0 where
    pub gs : List ScoredIdea
    pub middle : State
    pub graded : Runs (graded_ideas d) start gs middle
    pub unread : Unread d middle gs idea

  -- Unless it is rejected, the idea is apart from every project, or the read of the history raised
  -- when its turn came.
  abbrev pub Judged : State → List Project → ScoredIdea → Type 0
  Judged start ps x =
      x.rejected_reason ≡ none → Unlike d.prices.characters ps x.idea ⊎ Unanswered start x.idea

  abbrev pub AllJudged : State → List Project → List ScoredIdea → Type 0
  AllJudged start ps xs = All (Judged start ps) xs

  run-Judged :
      (s t : State) (xs : List ScoredIdea) → Runs (run d) s xs t → AllJudged s s.projects xs
  unfolding run
  run-Judged s t xs r =
      let (gs, u, r1, r2) = bind-Runs _ _ s xs t r in
      let same : u.projects ≡ s.projects =
        sym (ap (λ p. p.1.projects) r1) ∙ graded_ideas-Keeps.at s in
      All-map _ _ xs
        (λ x f h. elim (f h) [
          | inl k ↦ inl (subst (λ ps. Unlike d.prices.characters ps x.idea) same k)
          | inr k ↦ inr (record { gs = gs; middle = u; graded = r1; unread = k })
        ])
        (apply_to-Compared d gs u t xs r2)

  pub or_no_ideas-Judged :
      (s : State) (xs : List ScoredIdea)
      → (or_no_ideas (run d) s).0 ≡ ok xs
      → AllJudged s s.projects xs
  or_no_ideas-Judged s xs e =
      elim (catch-Runs (run d) (λ _. pure []) s xs _ (to_Runs (or_no_ideas (run d)) s xs e)) [
        | inl r ↦ run-Judged s _ xs r
        | inr (x, u, _, r) ↦ subst (AllJudged s s.projects) (pure-Runs [] xs u _ r).0 tt
      ]
