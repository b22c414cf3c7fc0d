-- ===== src/Ideation/Idle.antt =====
-- When the swarm has no work.
use ai_dev_swarm.Common.{
  ℕ, ◌≡◌, refl, leb, Bool, true, false, List, [], ◌∷◌, is_some, All, All-map, All-both, select,
  sort_by, insert_by, head?, Bool-cases, inl, inr, if◌then◌else◌,
}
use ai_dev_swarm.Schemas.Project.{Project, ProjectState, terminal_project, project_state_eq}
use ai_dev_swarm.Store.State.{State}
use ai_dev_swarm.Store.Projects.{active_state, active_row, rows_in}
use ai_dev_swarm.Router.{any_rows}
use ai_dev_swarm.Ideation.Rounds.{swarm_has_work}

module _ {A : Type 0} where
  insert_by-Full : (key : A → ℕ) (x : A) (ys : List A) → is_some (head? (insert_by key x ys)) ≡ true
  insert_by-Full key x [] = refl
  insert_by-Full key x (y ∷ ys) = elim (Bool-cases (leb (key x) (key y))) [
    | inl e ↦ rw e refl
    | inr e ↦ rw e refl
  ]

  sort_by-nil : (key : A → ℕ) (xs : List A) → is_some (head? (sort_by key xs)) ≡ false → xs ≡ []
  sort_by-nil key [] h = refl
  sort_by-nil key (x ∷ xs) h = let e = insert_by-Full key x (sort_by key xs) in cc

  select-nil : (p : A → Bool) (xs : List A) → select p xs ≡ [] → All (λ x. p x ≡ false) xs
  select-nil p [] h = tt
  select-nil p (x ∷ xs) h = elim (Bool-cases (p x)) [
    | inl e ↦ let h' : x ∷ select p xs ≡ [] = rw e at h in cc
    | inr e ↦ let h' : select p xs ≡ [] = rw e at h in (e, select-nil p xs h')
  ]

-- A state of none of the kinds that are work.
rest-terminal :
    (st : ProjectState)
    → active_state st ≡ false
    → project_state_eq st ProjectState.queued ≡ false
    → project_state_eq st ProjectState.blocked ≡ false
    → terminal_project st ≡ true
rest-terminal ProjectState.queued a q b = cc
rest-terminal ProjectState.planning a q b = cc
rest-terminal ProjectState.awaiting_approval a q b = cc
rest-terminal ProjectState.building a q b = cc
rest-terminal ProjectState.replanning a q b = cc
rest-terminal ProjectState.integration a q b = cc
rest-terminal ProjectState.done a q b = refl
rest-terminal ProjectState.blocked a q b = cc
rest-terminal ProjectState.killed a q b = refl

-- Every project is done or killed.
abbrev pub AllTerminal : State → Type 0
AllTerminal s = All (λ p. terminal_project p.state ≡ true) s.projects

any_rows-nil : (ps : List Project) → any_rows ps ≡ false → ps ≡ []
any_rows-nil [] h = refl
any_rows-nil (p ∷ ps) h = cc

none_holds :
    (a b c : Bool)
    → (if a then true else if b then true else c) ≡ false
    → (a ≡ false) × (b ≡ false) × (c ≡ false)
none_holds true b c h = cc
none_holds false true c h = cc
none_holds false false c h = (refl, refl, h)

-- Without work, every project is done or killed.
pub idle-AllTerminal : (s : State) → swarm_has_work s ≡ false → AllTerminal s
unfolding swarm_has_work
idle-AllTerminal s h =
    let (a, q, b) =
      none_holds (is_some (active_row s)) (any_rows (rows_in ProjectState.queued s))
        (any_rows (rows_in ProjectState.blocked s)) h in
    let active =
      select-nil (λ p. active_state p.state) s.projects (sort_by-nil (λ p. p.updated_at) _ a) in
    let queued =
      select-nil (λ p. project_state_eq p.state ProjectState.queued) s.projects
        (any_rows-nil _ q) in
    let blocked =
      select-nil (λ p. project_state_eq p.state ProjectState.blocked) s.projects
        (any_rows-nil _ b) in
    All-map _ _ s.projects (λ p (x, (y, z)). rest-terminal p.state x y z)
      (All-both _ _ s.projects active (All-both _ _ s.projects queued blocked))
