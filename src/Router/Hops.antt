-- ===== src/Router/Hops.antt =====
-- What a command may do to the projects.
use ai_dev_swarm.Common.{
  ℕ, ◌==◌, ◌≡◌, ◌≢◌, refl, sym, ◌∙◌, true, false, none, some, arith, Bool-cases, Option-cases, inl,
  inr, ==→eq,
}
use ai_dev_swarm.Schemas.Command.{
  Command, approve, inject_note, list_state, show_transcript, ideate_now, submit_idea,
  update_setting, pause_project, resume_project, abort_project, rescope, transform_project,
  drop_and_start_new, switch_to_idea, reject_idea, kill_switch, requires_confirmation, destructive,
  confirmed,
}
use ai_dev_swarm.Schemas.Project.{ProjectState}
use ai_dev_swarm.Schemas.Exceptions.{ok}
use ai_dev_swarm.Store.State.{State}
use ai_dev_swarm.Store.Action.{Action, pure}
use ai_dev_swarm.Store.Action.Keeps.{Keeps, keeps_rules}
use ai_dev_swarm.Store.Projects.Rows.{state_at, same_states, SameStates}
use ai_dev_swarm.Tick.Hops.{Hop, OneHop}
use ai_dev_swarm.Router.{RouterDeps, run_handler, dispatch, confirm_first}
use ai_dev_swarm.Router.Quiet.{
  trip-SameStates, trip_for-SameStates, add_note-SameStates, do_pause-SameStates,
  do_ideate_now-SameStates, do_update_setting-SameStates,
}
use ai_dev_swarm.Router.Effects.{
  do_resume-OneHop, do_approve-OneHop, do_submit_idea-stays, absent_approve, absent_resume,
}

module _ (s t : State) (i : ℕ) (st : ProjectState) (e : state_at i s ≡ some st) where
  quiet-Hop : SameStates s t → Hop st (state_at i t)
  quiet-Hop h = rw (h i ∙ e) (inl refl)

  -- A command about project `j`, which may be another.
  subject-Hop :
      (j : ℕ)
      → ((st' : ProjectState) → state_at j s ≡ some st' → OneHop j st' s t)
      → (state_at j s ≡ none → SameStates s t)
      → Hop st (state_at i t)
  subject-Hop j one absent = elim (Bool-cases (i == j)) [
    | inl h ↦
        let same = ==→eq i j h in
        let hop : Hop st (state_at j t) = (one st (rw (sym same) e)).hop in rw same hop
    | inr h ↦
        let ne : i ≢ j = ground arith in
        elim (Option-cases (state_at j s)) [
          | inl none_there ↦ quiet-Hop (absent none_there)
          | inr (st', there) ↦ rw ((one st' there).others i ne ∙ e) (inl refl)
        ]
  ]

kept-Hop :
    {A : Type 0} (m : Action A) (s : State) (i : ℕ) (st : ProjectState)
    → Keeps same_states m
    → state_at i s ≡ some st
    → Hop st (state_at i (m s).1)
kept-Hop m s i st k e = quiet-Hop s (m s).1 i st e (k.at s)

run_handler-Hop :
    (d : RouterDeps) (c : Command) (s : State) (i : ℕ) (st : ProjectState)
    → state_at i s ≡ some st
    → Hop st (state_at i (run_handler d c s).1)
unfolding run_handler pure
run_handler-Hop d (approve j) s i st e =
    subject-Hop s _ i st e j (λ st' h. do_approve-OneHop j st' s h) (absent_approve j s)
run_handler-Hop d (resume_project j) s i st e =
    subject-Hop s _ i st e j (λ st' h. do_resume-OneHop j st' s h) (absent_resume j s)
run_handler-Hop d (submit_idea title summary rationale stack tags) s i st e =
    rw ((do_submit_idea-stays d title summary rationale stack tags i st).at s e) (inl refl)
run_handler-Hop d (inject_note j body role author) s i st e =
    kept-Hop (run_handler d (inject_note j body role author)) s i st
      (search (keeps_rules, add_note-SameStates)) e
run_handler-Hop d (list_state j) s i st e = quiet-Hop s s i st e (λ k. refl)
run_handler-Hop d (show_transcript j limit) s i st e = quiet-Hop s s i st e (λ k. refl)
run_handler-Hop d (ideate_now force) s i st e =
    kept-Hop (run_handler d (ideate_now force)) s i st (do_ideate_now-SameStates d force) e
run_handler-Hop d (update_setting key value) s i st e =
    kept-Hop (run_handler d (update_setting key value)) s i st
      (do_update_setting-SameStates d key value) e
run_handler-Hop d (pause_project j) s i st e =
    kept-Hop (run_handler d (pause_project j)) s i st (do_pause-SameStates j) e
run_handler-Hop d (abort_project j why b) s i st e =
    kept-Hop (run_handler d (abort_project j why b)) s i st
      (search (keeps_rules, trip_for-SameStates)) e
run_handler-Hop d (rescope j scope b) s i st e =
    kept-Hop (run_handler d (rescope j scope b)) s i st (search (keeps_rules, add_note-SameStates))
      e
run_handler-Hop d (transform_project j scope b) s i st e =
    kept-Hop (run_handler d (transform_project j scope b)) s i st
      (search (keeps_rules, add_note-SameStates)) e
run_handler-Hop d (drop_and_start_new j b) s i st e =
    kept-Hop (run_handler d (drop_and_start_new j b)) s i st
      (search (keeps_rules, trip_for-SameStates)) e
run_handler-Hop d (switch_to_idea j idea b) s i st e =
    kept-Hop (run_handler d (switch_to_idea j idea b)) s i st
      (search (keeps_rules, trip_for-SameStates)) e
run_handler-Hop d (reject_idea j b) s i st e = quiet-Hop s s i st e (λ k. refl)
run_handler-Hop d (kill_switch why b) s i st e =
    kept-Hop (run_handler d (kill_switch why b)) s i st (search (keeps_rules, trip-SameStates)) e

-- Whatever the command, each project that is there before is there after, in the same state or in
-- a legal successor of it.
pub dispatch-Hop :
    (d : RouterDeps) (c : Command) (s : State) (i : ℕ) (st : ProjectState)
    → state_at i s ≡ some st
    → Hop st (state_at i (dispatch d c s).1)
unfolding dispatch pure
dispatch-Hop d c s i st e = elim (Bool-cases (requires_confirmation c)) [
  | inl h ↦ rw h (quiet-Hop s s i st e (λ k. refl))
  | inr h ↦ rw h (run_handler-Hop d c s i st e)
]

-- A destructive command that the operator has not confirmed changes nothing, and asks.
unconfirmed_does_nothing :
    (d : RouterDeps) (c : Command) (s : State)
    → destructive c ≡ true
    → confirmed c ≡ false
    → dispatch d c s
      ≡ (ok (record { ok_flag = false; answer = confirm_first; asks_confirmation = true }), s)
unfolding dispatch pure requires_confirmation
unconfirmed_does_nothing d c s h k = rw (h, k) refl
