-- ===== src/Pool/Oldest.antt =====
-- Which project a worker claims.
use ai_dev_swarm.Common.{
  ℕ, ◌≤◌, ◌≡◌, refl, sym, ap, Bool, true, false, List, [], ◌∷◌, ◌++◌, Option, none, some, All,
  All-map, All-both, All-append, append-All, All-select, select-All, All-sort_by, sort_by-All,
  Sorted, sort_by-Sorted, arith, Bool-cases, inl, inr,
}
use ai_dev_swarm.Schemas.Project.{Project, ProjectState, project_state_eq}
use ai_dev_swarm.Store.State.{State}
use ai_dev_swarm.Store.Projects.{rows_in}
use ai_dev_swarm.Pool.{ProjectPool, skipped, pick, claim_next, gather_candidates}

-- `state in _ADVANCEABLE_STATES`
abbrev pub advanceable : ProjectState → Bool
advanceable ProjectState.queued = true
advanceable ProjectState.planning = true
advanceable ProjectState.building = true
advanceable ProjectState.replanning = true
advanceable ProjectState.integration = true
advanceable _ = false

one_of_five :
    (X : Type 0) (st : ProjectState)
    → (project_state_eq st ProjectState.queued ≡ true → X)
      × (project_state_eq st ProjectState.planning ≡ true → X)
      × (project_state_eq st ProjectState.building ≡ true → X)
      × (project_state_eq st ProjectState.replanning ≡ true → X)
      × (project_state_eq st ProjectState.integration ≡ true → X)
    → advanceable st ≡ true
    → X
one_of_five X ProjectState.queued f h = f.0 refl
one_of_five X ProjectState.planning f h = f.1 refl
one_of_five X ProjectState.building f h = f.2 refl
one_of_five X ProjectState.replanning f h = f.3 refl
one_of_five X ProjectState.integration f h = f.4 refl
one_of_five X _ f h = cc

module _ (P : Project → Type 0) (s : State) where
  from_state :
      (st : ProjectState)
      → All P (rows_in st s)
      → All (λ q. project_state_eq q.state st ≡ true → P q) s.projects
  from_state st h = All-select P (λ q. project_state_eq q.state st) s.projects h

  -- What holds of all candidates holds of all advanceable projects of the store.
  candidates-All :
      All P (gather_candidates s) → All (λ q. advanceable q.state ≡ true → P q) s.projects
  unfolding gather_candidates
  candidates-All h =
      let a =
        All-append P (rows_in ProjectState.queued s) _ (All-sort_by P (λ p. p.created_at) _ h) in
      let b = All-append P (rows_in ProjectState.planning s) _ a.1 in
      let c = All-append P (rows_in ProjectState.building s) _ b.1 in
      let e =
        All-append P (rows_in ProjectState.replanning s) (rows_in ProjectState.integration s) c.1 in
      All-map _ _ s.projects
        (λ q f. one_of_five (P q) q.state (f.0, f.1.0, f.1.1.0, f.1.1.1.0, f.1.1.1.1))
        (All-both _ _ s.projects (from_state ProjectState.queued a.0) (
          All-both _ _ s.projects (from_state ProjectState.planning b.0) (
            All-both _ _ s.projects (from_state ProjectState.building c.0) (
              All-both _ _ s.projects (from_state ProjectState.replanning e.0)
                (from_state ProjectState.integration e.1)))))

rows_in-advanceable :
    (st : ProjectState) (s : State)
    → advanceable st ≡ true
    → All (λ q. advanceable q.state ≡ true) (rows_in st s)
rows_in-advanceable st s h =
    select-All (λ q. advanceable q.state ≡ true) (λ q. project_state_eq q.state st) s.projects
      (λ q e. ground arith)

candidates-advanceable : (s : State) → All (λ q. advanceable q.state ≡ true) (gather_candidates s)
unfolding gather_candidates
candidates-advanceable s =
    let P = λ (q : Project). advanceable q.state ≡ true in
    sort_by-All P (λ p. p.created_at) _
      (append-All P _ _ (rows_in-advanceable ProjectState.queued s refl) (
        append-All P _ _ (rows_in-advanceable ProjectState.planning s refl) (
          append-All P _ _ (rows_in-advanceable ProjectState.building s refl) (
            append-All P _ _ (rows_in-advanceable ProjectState.replanning s refl)
              (rows_in-advanceable ProjectState.integration s refl)))))

-- The choice among the candidates `ps`, in the words of the caller.
abbrev pub Chosen : ℕ → ProjectPool → List Project → Option Project → Type 0
Chosen now pool ps none = All (λ q. advanceable q.state ≡ true → skipped now pool q ≡ true) ps
Chosen now pool ps (some p) =
    (advanceable p.state ≡ true)
    × (skipped now pool p ≡ false)
    × All
        (λ q. advanceable q.state ≡ true → skipped now pool q ≡ false → p.created_at ≤ q.created_at)
        ps

module _ (now : ℕ) (pool : ProjectPool) where
  pick-none :
      (ps : List Project) → pick now pool ps ≡ none → All (λ q. skipped now pool q ≡ true) ps
  unfolding pick
  pick-none [] e = tt
  pick-none (q ∷ ps) e = elim (Bool-cases (skipped now pool q)) [
    | inl h ↦ let e' : pick now pool ps ≡ none = rw h at e in (h, pick-none ps e')
    | inr h ↦ ground arith
  ]

  pick-some :
      (ps : List Project) (p : Project)
      → pick now pool ps ≡ some p
      → Sorted (λ q. q.created_at) ps
      → All (λ q. advanceable q.state ≡ true) ps
      → (advanceable p.state ≡ true)
        × (skipped now pool p ≡ false)
        × All (λ q. skipped now pool q ≡ false → p.created_at ≤ q.created_at) ps
  unfolding pick
  pick-some [] p e sorted adv = cc
  pick-some (q ∷ ps) p e (least, sorted) (a, adv) = elim (Bool-cases (skipped now pool q)) [
    | inl h ↦
        let e' : pick now pool ps ≡ some p = rw h at e in
        let r = pick-some ps p e' sorted adv in (r.0, r.1, ((λ k. cc), r.2))
    | inr h ↦
        let same : q ≡ p = ground arith in
        let since : q.created_at ≡ p.created_at = ap (λ r. r.created_at) same in
        (
          rw (sym same) a,
          rw (sym same) h,
          (
            (λ k. omega arith),
            All-map (λ z. q.created_at ≤ z.created_at)
                (λ z. skipped now pool z ≡ false → p.created_at ≤ z.created_at) ps
                (λ z le k. omega arith) least,
          ),
        )
  ]

in_order : (s : State) → Sorted (λ q. q.created_at) (gather_candidates s)
unfolding gather_candidates
in_order s =
    sort_by-Sorted (λ (q : Project). q.created_at)
      (rows_in ProjectState.queued s
        ++ (rows_in ProjectState.planning s
            ++ (rows_in ProjectState.building s
                ++ (rows_in ProjectState.replanning s ++ rows_in ProjectState.integration s))))

-- A claim takes an advanceable project that is neither claimed nor cooling down, and of all such
-- projects in the store it takes one that is as old as any; it takes none only if there is none.
pub claim_next-Chosen :
    (now : ℕ) (pool : ProjectPool) (s : State)
    → Chosen now pool s.projects (claim_next now pool s).0
unfolding claim_next
claim_next-Chosen now pool s = chosen (pick now pool (gather_candidates s)) refl
  where
    chosen :
        (o : Option Project)
        → pick now pool (gather_candidates s) ≡ o
        → Chosen now pool s.projects o
    chosen none e =
        candidates-All (λ q. skipped now pool q ≡ true) s
          (pick-none now pool (gather_candidates s) e)
    chosen (some p) e =
        let r =
          pick-some now pool (gather_candidates s) p e (in_order s) (candidates-advanceable s) in
        (
          r.0,
          r.1,
          candidates-All (λ q. skipped now pool q ≡ false → p.created_at ≤ q.created_at) s r.2,
        )
