-- ===== src/Router/Effects.antt =====
-- What each handler may do to the projects.
use ai_dev_swarm.Common.{
  ℕ, ◌==◌, ◌≡◌, refl, sym, subst, ◌∙◌, ap, Bool, true, false, List, ◌∷◌, Option, none, some, find,
  is_some, Text, Bool-cases, ◌⊎◌, inl, inr, ==→eq,
}
use ai_dev_swarm.KillSwitch
use ai_dev_swarm.Schemas.Project.{
  Project, ProjectState, project_state_eq, project_state_eq→eq, resumed_by_operator,
}
use ai_dev_swarm.Schemas.Transitions.{legal_project}
use ai_dev_swarm.Store.State.{State}
use ai_dev_swarm.Store.Action.{◌>>=◌, ◌>>◌, pure, modify}
use ai_dev_swarm.Store.Action.Keeps.{Rel, Keeps, keeps_rules}
use ai_dev_swarm.Store.Milestones.{reset_retry_count, list_for_project, rows_of}
use ai_dev_swarm.Store.Milestones.Frame.{milestone_rules}
use ai_dev_swarm.Store.Projects
use ai_dev_swarm.Store.Projects.{row}
use ai_dev_swarm.Store.Projects.Rows.{
  state_at, state_of, same_states, SameStates, update_state_lem, update_state-others,
  set_status_detail-SameStates,
}
use ai_dev_swarm.Tick.Hops.{OneHop, Advances, Advances-bind, Advances-then, SameStates→OneHop}
use ai_dev_swarm.Router.{
  RouterDeps, approve_row, do_approve, unblock, do_resume, any_rows, is_blocked, do_submit_idea,
  make_id, resumed, done, approved,
}
use ai_dev_swarm.Router.Quiet.{unpause-SameStates, reset_for-SameStates}

-- From a state with a legal edge to `new`, `update_state` is one hop.
update-Advances :
    (i : ℕ) (old new : ProjectState)
    → legal_project old new ≡ true
    → Advances i old (Projects.update_state i new)
update-Advances i old new legal = record { from = λ s e. from s (row i s) refl e }
  where
    from :
        (s : State) (o : Option Project)
        → row i s ≡ o
        → state_of o ≡ some old
        → OneHop i old s (Projects.update_state i new s).1
    from s none r e = cc
    from s (some p) r e = record {
      others = λ j ne. ap state_of (update_state-others j i new s ne);
      hop = rw (ap state_of (update_state_lem i new s p r)) (inr legal);
    }

unblock-Advances : (i : ℕ) (b : Bool) → Advances i ProjectState.blocked (unblock i b)
unfolding unblock
unblock-Advances i false =
    Advances-then (Projects.update_state i ProjectState.planning) _
      (update-Advances i ProjectState.blocked ProjectState.planning refl)
      (λ _. search (keeps_rules, set_status_detail-SameStates))
unblock-Advances i true = Advances-bind (reset_retry_count i) _ (search milestone_rules) (λ _.
    Advances-then (Projects.update_state i ProjectState.building) _
      (update-Advances i ProjectState.blocked ProjectState.building refl)
      (λ _. search (keeps_rules, set_status_detail-SameStates)))

blocked_state :
    (o : Option Project) (st : ProjectState)
    → state_of o ≡ some st
    → is_blocked o ≡ true
    → ProjectState.blocked ≡ st
blocked_state none st e h = cc
blocked_state (some p) st e h = let b = project_state_eq→eq p.state ProjectState.blocked h in cc

behind :
    {i : ℕ} {st : ProjectState} {s t u : State} → SameStates s t → OneHop i st t u → OneHop i st s u
behind h o = record { others = λ j ne. o.others j ne ∙ h j; hop = o.hop }

pub do_resume-OneHop :
    (i : ℕ) (st : ProjectState) (s : State)
    → state_at i s ≡ some st
    → OneHop i st s (do_resume i s).1
unfolding do_resume ◌>>=◌ Projects.get list_for_project
do_resume-OneHop i st s e = after (Bool-cases (is_blocked (row i s2)))
  where
    s2 : State
    s2 = KillSwitch.reset_for i (KillSwitch.unpause_for i s)

    same2 : SameStates s s2
    same2 = λ j.
        (reset_for-SameStates i).at (KillSwitch.unpause_for i s) j ∙ (unpause-SameStates i).at s j

    after :
        (is_blocked (row i s2) ≡ true) ⊎ (is_blocked (row i s2) ≡ false)
        → OneHop i st s (do_resume i s).1
    after (inl b) =
        let blocked : ProjectState.blocked ≡ st = blocked_state (row i s2) st (same2 i ∙ e) b in
        let adv =
          subst (λ x. Advances i x (unblock i (any_rows (rows_of i s2)))) blocked
            (unblock-Advances i (any_rows (rows_of i s2))) in
        rw b (behind same2 (adv.from s2 (same2 i ∙ e)))
    after (inr b) =
        let quiet : Keeps same_states
            (Projects.set_status_detail i (some resumed_by_operator) >> pure (done resumed)) =
          search (keeps_rules, set_status_detail-SameStates) in
        rw b (behind same2 (SameStates→OneHop s2 _ (same2 i ∙ e) (quiet.at s2)))

pub do_approve-OneHop :
    (i : ℕ) (st : ProjectState) (s : State)
    → state_at i s ≡ some st
    → OneHop i st s (do_approve i s).1
unfolding do_approve ◌>>=◌ Projects.get
do_approve-OneHop i st s e = after (row i s) refl
  where
    after : (o : Option Project) → row i s ≡ o → OneHop i st s (approve_row i o s).1
    after none r = cc
    after (some p) r = elim (Bool-cases (project_state_eq p.state ProjectState.awaiting_approval)) [
      | inl b ↦
          let waits : ProjectState.awaiting_approval ≡ st =
            sym (project_state_eq→eq p.state ProjectState.awaiting_approval b) ∙ same_state p r in
          let adv =
            subst
              (λ x.
                Advances i x
                  (Projects.update_state i ProjectState.building >> pure (done approved)))
              waits
              (Advances-then (Projects.update_state i ProjectState.building) _
                (update-Advances i _ _ refl) (λ _. search keeps_rules)) in
          rw b (adv.from s e)
      | inr b ↦ rw b (SameStates→OneHop s s e (λ j. refl))
    ]
      where
        same_state : (q : Project) → row i s ≡ some q → q.state ≡ st
        same_state q r' = let e' : some q.state ≡ some st = sym (ap state_of r') ∙ e in cc

create-Hop :
    (p : Project) (s : State) (i : ℕ) (st : ProjectState)
    → state_at i s ≡ some st
    → state_at i (Projects.create p s).1 ≡ some st
unfolding Projects.create
create-Hop p s i st e = elim (Bool-cases (is_some (row p.id s))) [
  | inl b ↦ rw b e
  | inr b ↦ rw b (new_row (Bool-cases (p.id == i)) (row i s) refl b)
]
  where
    new_row :
        ((p.id == i) ≡ true) ⊎ ((p.id == i) ≡ false)
        → (o : Option Project) → row i s ≡ o
        → is_some (row p.id s) ≡ false
        → state_of (
            find
              (Projects.has_id i)
              (record p { status_detail = none; is_paused = false } ∷ s.projects))
          ≡ some st
    new_row (inl h) none r b = cc
    new_row (inl h) (some q) r b =
        let same = ==→eq p.id i h in
        let stored : is_some (row p.id s) ≡ true = rw (same, r) refl in cc
    new_row (inr h) o r b = rw h e

-- A call that leaves project `i` in state `st`.
abbrev stays_in : ℕ → ProjectState → Rel
stays_in i st = record {
  holds = λ s t. state_at i s ≡ some st → state_at i t ≡ some st;
  same = λ s e. e;
  chain = λ s t u h k e. k (h e);
  world = λ s w e. e;
  outbox = λ s o e. e;
}

create-stays : (p : Project) (i : ℕ) (st : ProjectState) → Keeps (stays_in i st) (Projects.create p)
create-stays p i st = record { at = λ s e. create-Hop p s i st e }

make_id-stays : (i : ℕ) (st : ProjectState) → Keeps (stays_in i st) make_id
unfolding make_id modify
make_id-stays i st = record { at = λ s e. e }

pub do_submit_idea-stays :
    (d : RouterDeps) (title summary rationale : Text) (stack tags : List Text) (i : ℕ)
    (st : ProjectState)
    → Keeps (stays_in i st) (do_submit_idea d title summary rationale stack tags)
unfolding do_submit_idea Projects.list_all
do_submit_idea-stays d title summary rationale stack tags i st =
    search (keeps_rules, create-stays, make_id-stays) depth 10

pub absent_approve : (j : ℕ) (s : State) → state_at j s ≡ none → SameStates s (do_approve j s).1
unfolding do_approve ◌>>=◌ Projects.get
absent_approve j s e = after (row j s) e
  where
    after : (o : Option Project) → state_of o ≡ none → SameStates s (approve_row j o s).1
    after none h = λ k. refl
    after (some p) h = cc

pub absent_resume : (j : ℕ) (s : State) → state_at j s ≡ none → SameStates s (do_resume j s).1
unfolding do_resume ◌>>=◌ Projects.get list_for_project
absent_resume j s e = rw (not_blocked (row j s2) (same2 j ∙ e)) (λ k. quiet.at s2 k ∙ same2 k)
  where
    s2 : State
    s2 = KillSwitch.reset_for j (KillSwitch.unpause_for j s)

    same2 : SameStates s s2
    same2 = λ k.
        (reset_for-SameStates j).at (KillSwitch.unpause_for j s) k ∙ (unpause-SameStates j).at s k

    not_blocked : (o : Option Project) → state_of o ≡ none → is_blocked o ≡ false
    not_blocked none h = refl
    not_blocked (some p) h = cc

    quiet :
        Keeps same_states
          (Projects.set_status_detail j (some resumed_by_operator) >> pure (done resumed))
    quiet = search (keeps_rules, set_status_detail-SameStates)
