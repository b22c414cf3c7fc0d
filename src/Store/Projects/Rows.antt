-- ===== src/Store/Projects/Rows.antt =====
-- The state of a project's row under the statements of `PsycopgProjectRepo`.
use ai_dev_swarm.Common.{
  ℕ, ◌≡◌, ◌≢◌, refl, ◌∙◌, Bool, List, [], ◌∷◌, Option, none, some, find, update_where, arith,
}
use ai_dev_swarm.Schemas.Project.{Project, ProjectState, Detail}
use ai_dev_swarm.Schemas.Exceptions.{ok}
use ai_dev_swarm.Store.State.{State}
use ai_dev_swarm.Store.Action.{modify, ◌>>=◌}
use ai_dev_swarm.Store.Action.Keeps.{Rel, Keeps, keeps_rules}
use ai_dev_swarm.Store.Projects.{
  has_id, row, update_row, set_status_detail, set_github_repo, set_paused, update_state,
}

abbrev pub state_of : Option Project → Option ProjectState
state_of none = none
state_of (some p) = some p.state

-- The state of project `i`, if there is one.
abbrev pub state_at : ℕ → State → Option ProjectState
state_at i s = state_of (row i s)

-- No project is added or removed, and none changes its state.
abbrev pub SameStates : State → State → Type 0
SameStates s t = (i : ℕ) → state_at i t ≡ state_at i s

abbrev pub same_states : Rel
same_states = record {
  holds = SameStates;
  same = λ s i. refl;
  chain = λ s t u h k i. k i ∙ h i;
  world = λ s w i. refl;
  outbox = λ s o i. refl;
}

pub find-update_ne :
    (i j : ℕ) (f : Project → Project) (rows : List Project)
    → ((p : Project) → (f p).id ≡ p.id)
    → i ≢ j
    → find (has_id i) (update_where (has_id j) f rows) ≡ find (has_id i) rows
find-update_ne i j f [] hf ne = refl
find-update_ne i j f (p ∷ rows) hf ne = ground (arith, hf p, find-update_ne i j f rows hf ne)

pub find-update_self :
    (i : ℕ) (f : Project → Project) (rows : List Project) (p : Project)
    → ((p : Project) → (f p).id ≡ p.id)
    → find (has_id i) rows ≡ some p
    → find (has_id i) (update_where (has_id i) f rows) ≡ some (f p)
find-update_self i f [] p hf e = cc
find-update_self i f (q ∷ rows) p hf e = ground (arith, hf q, find-update_self i f rows p hf)

-- An update that keeps ids and states keeps the state of every row.
update-SameStates :
    (j : ℕ) (f : Project → Project) (rows : List Project)
    → ((p : Project) → (f p).id ≡ p.id)
    → ((p : Project) → (f p).state ≡ p.state)
    → (i : ℕ)
    → state_of (find (has_id i) (update_where (has_id j) f rows)) ≡ state_of (find (has_id i) rows)
update-SameStates j f [] hf hs i = refl
update-SameStates j f (p ∷ rows) hf hs i =
    ground (arith, hf p, hs p, update-SameStates j f rows hf hs i)

modify-SameStates :
    (j : ℕ) (f : Project → Project)
    → ((p : Project) → (f p).id ≡ p.id)
    → ((p : Project) → (f p).state ≡ p.state)
    → Keeps same_states (modify (update_row j f))
unfolding modify
modify-SameStates j f hf hs = record { at = λ s. update-SameStates j f s.projects hf hs }

pub set_status_detail-SameStates :
    (j : ℕ) (detail : Option Detail) → Keeps same_states (set_status_detail j detail)
unfolding set_status_detail
set_status_detail-SameStates j detail = search (keeps_rules, modify-SameStates)

pub set_github_repo-SameStates : (j : ℕ) (url : List ℕ) → Keeps same_states (set_github_repo j url)
unfolding set_github_repo
set_github_repo-SameStates j url = search (keeps_rules, modify-SameStates)

-- `update_state` writes the one row.
pub update_state_lem :
    (i : ℕ) (st : ProjectState) (s : State) (p : Project)
    → row i s ≡ some p
    → row i (update_state i st s).1 ≡ some (record p { state = st; updated_at = s.now })
unfolding update_state ◌>>=◌
update_state_lem i st s p e =
    find-update_self i (λ q. record q { state = st; updated_at = s.now }) s.projects p (λ q. refl) e

pub update_state-others :
    (i j : ℕ) (st : ProjectState) (s : State) → i ≢ j → row i (update_state j st s).1 ≡ row i s
unfolding update_state ◌>>=◌
update_state-others i j st s ne =
    find-update_ne i j (λ q. record q { state = st; updated_at = s.now }) s.projects (λ q. refl) ne

-- It returns the row that it wrote.
pub update_state-ok :
    (i : ℕ) (st : ProjectState) (s : State) (p : Project)
    → row i s ≡ some p
    → (update_state i st s).0 ≡ ok (record p { state = st; updated_at = s.now })
unfolding update_state ◌>>=◌
update_state-ok i st s p e = rw (
    find-update_self i (λ q. record q { state = st; updated_at = s.now }) s.projects p (λ q. refl)
      e)

pub set_paused-SameStates : (j : ℕ) (paused : Bool) → Keeps same_states (set_paused j paused)
unfolding set_paused
set_paused-SameStates j paused = search (keeps_rules, modify-SameStates)
