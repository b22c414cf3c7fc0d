-- ===== src/Router.antt =====
-- orchestrator/command_router.py: the one place that turns an operator's command into state.
pub mod Quiet
pub mod Effects
pub mod Hops
mod Tests
use ai_dev_swarm.Common.{
  ℕ, ◌+◌, ◌==◌, Bool, true, false, not, ◌&&◌, ◌||◌, List, [], ◌∷◌, ◌++◌, Option, none, some, Text,
  text, text_eq, any, select, is_some, if◌then◌else◌,
}
use ai_dev_swarm.KillSwitch
use ai_dev_swarm.Schemas.Command.{
  Command, approve, inject_note, list_state, show_transcript, ideate_now, submit_idea,
  update_setting, pause_project, resume_project, abort_project, rescope, transform_project,
  drop_and_start_new, switch_to_idea, reject_idea, kill_switch, requires_confirmation,
}
use ai_dev_swarm.Schemas.Project.{
  Project, ProjectSpec, ProjectState, project_state_eq, terminal_project, paused_by_operator,
  resumed_by_operator, resumed_replanning,
}
use ai_dev_swarm.Schemas.Exceptions.{Exception, Result, ok, raise}
use ai_dev_swarm.Settings.{SettingValue}
use ai_dev_swarm.SettingsStore.{Numbers, is_editable, apply_override}
use ai_dev_swarm.Slugs.{Characters, project_slug, strip_spaces}
use ai_dev_swarm.Steering.{add_note}
use ai_dev_swarm.Store.State.{State, World}
use ai_dev_swarm.Store.Action.{Action, ◌>>=◌, ◌>>◌, pure, gets, modify, catch, run_world, on_world}
use ai_dev_swarm.Store.Milestones
use ai_dev_swarm.Store.Projects

-- What a handler answers; the texts are represented by the cases that produce them.
pub data Answer : Type 0 where
  confirm_first not_found wrong_state approved note_delivered paused resumed resumed_from_blocked :
      Answer
  resumed_to_replan see_projects see_transcript confirm_ideation ideation_failed
        ideation_scheduled :
      Answer
  already_in_flight queued not_editable setting_rejected setting_updated kill_tripped : Answer
  rescope_queued transform_queued dropped switched rejection_logged halted : Answer

pub record CommandResult : Type 0 where
  pub ok_flag : Bool
  pub answer : Answer
  pub asks_confirmation : Bool

abbrev pub done : Answer → CommandResult
done a = record { ok_flag = true; answer = a; asks_confirmation = false }

abbrev pub refused : Answer → CommandResult
refused a = record { ok_flag = false; answer = a; asks_confirmation = false }

-- The collaborators of `CommandRouter`, with all optional ones wired, as the composition root does:
-- the transcript, and the ideation runner, which may raise.
pub record RouterDeps : Type 0 where
  pub characters : Characters
  pub numbers : Numbers
  pub publish_decision : (project_id : ℕ) → (body : Text) → World → World
  pub ideate_runner : (force : Bool) → World → Result (Unit {0}) × World
  pub show_id : ℕ → Text

-- `_approve`
abbrev pub approve_row : ℕ → Option Project → Action CommandResult
approve_row i none = pure (refused not_found)
approve_row i (some p) =
    if project_state_eq p.state ProjectState.awaiting_approval
    then Projects.update_state i ProjectState.building >> pure (done approved)
    else pure (refused wrong_state)

unfoldable pub do_approve : ℕ → Action CommandResult
do_approve i = do p ← Projects.get i; approve_row i p

-- `_pause`
unfoldable pub do_pause : ℕ → Action CommandResult
do_pause i = do
  modify (KillSwitch.pause_for i)
  Projects.set_status_detail i (some paused_by_operator)
  pure (done paused)

-- The part of `_resume` for a blocked project, by whether it has milestones.
unfoldable pub unblock : ℕ → Bool → Action CommandResult
unblock i false = do
  Projects.update_state i ProjectState.planning
  Projects.set_status_detail i (some resumed_replanning)
  pure (done resumed_to_replan)
unblock i true = do
  Milestones.reset_retry_count i
  Projects.update_state i ProjectState.building
  Projects.set_status_detail i (some resumed_by_operator)
  pure (done resumed_from_blocked)

abbrev pub any_rows {ℓ} : {A : Type ℓ} → List A → Bool
any_rows [] = false
any_rows (_ ∷ _) = true

abbrev pub is_blocked : Option Project → Bool
is_blocked none = false
is_blocked (some p) = project_state_eq p.state ProjectState.blocked

unfoldable pub do_resume : ℕ → Action CommandResult
do_resume i = do
  modify (KillSwitch.unpause_for i)
  modify (KillSwitch.reset_for i)
  p ← Projects.get i
  ms ← Milestones.list_for_project i
  if is_blocked p
      then unblock i (any_rows ms)
      else (Projects.set_status_detail i (some resumed_by_operator) >> pure (done resumed))

-- `_has_active_work`
unfoldable pub has_active_work : State → Bool
has_active_work s =
    is_some (Projects.active_row s)
    || (any_rows (Projects.rows_in ProjectState.queued s)
        || any_rows (Projects.rows_in ProjectState.blocked s))

unfoldable pub do_ideate_now : RouterDeps → Bool → Action CommandResult
do_ideate_now d force = do
  busy ← gets has_active_work
  if busy && not force
      then pure (record { ok_flag = true; answer = confirm_ideation; asks_confirmation = true })
      else catch (on_world (d.ideate_runner force) >> pure (done ideation_scheduled))
          (λ _. pure (refused ideation_failed))

-- `text.strip() or other.strip()`
abbrev pub or_text : Text → Text → Text
or_text [] b = b
or_text (c ∷ a) b = c ∷ a

abbrev pub new_project : RouterDeps → Text → Text → Text → List Text → List Text → State → Project
new_project d title summary rationale stack tags s = record {
  id = s.next_id;
  name = project_slug d.characters title;
  spec = record {
    title = strip_spaces d.characters title;
    summary = strip_spaces d.characters summary;
    rationale = or_text (strip_spaces d.characters rationale) (strip_spaces d.characters summary);
    stack = stack;
    tags = tags;
    score = 100;
  };
  state = ProjectState.queued;
  github_repo = none;
  status_detail = none;
  is_paused = false;
  created_at = s.now;
  updated_at = s.now;
}

-- A project of that name that is not terminal.
abbrev pub in_flight : Text → Project → Bool
in_flight name p = text_eq p.name name && not (terminal_project p.state)

-- `uuid4()`: the next id is used up.
unfoldable pub make_id : Action (Unit {0})
make_id = modify λ s. record s { next_id = s.next_id + 1 }

-- `_submit_idea`
unfoldable pub do_submit_idea :
    RouterDeps → Text → Text → Text → List Text → List Text → Action CommandResult
do_submit_idea d title summary rationale stack tags = do
  existing ← Projects.list_all
  if any (in_flight (project_slug d.characters title)) existing
      then pure (refused already_in_flight)
      else (do
        p ← gets (new_project d title summary rationale stack tags)
        make_id
        Projects.create p
        pure (done queued))

-- `INSERT ... ON CONFLICT (key) DO UPDATE`
abbrev pub upsert : Text → Text → List (Text × Text) → List (Text × Text)
upsert key value [] = (key, value) ∷ []
upsert key value ((k, v) ∷ rows) =
    if text_eq k key then (key, value) ∷ rows else (k, v) ∷ upsert key value rows

abbrev pub store_override :
    Text
    → Text
    → State
    → Result SettingValue × (Text → Option SettingValue)
    → Result CommandResult × State
store_override key value s (ok v, live) =
    (ok (done setting_updated), record s { overrides = upsert key value s.overrides; live = live })
store_override key value s (raise e, live) = (ok (refused setting_rejected), s)

-- `_update_setting`
unfoldable pub do_update_setting : RouterDeps → Text → Text → Action CommandResult
do_update_setting d key value s =
    if not (is_editable key)
    then (ok (refused not_editable), s)
    else store_override key (strip_spaces d.characters value) s
        (apply_override d.characters d.numbers key value s.live)

-- The handlers of `_handlers`, by the type of the command.
unfoldable pub run_handler : RouterDeps → Command → Action CommandResult
run_handler d (approve i) = do_approve i
run_handler d (inject_note i body role author) = do
  add_note d.characters i body author role
  run_world (d.publish_decision i body)
  pure (done note_delivered)
run_handler d (list_state i) = pure (done see_projects)
run_handler d (show_transcript i limit) = pure (done see_transcript)
run_handler d (ideate_now force) = do_ideate_now d force
run_handler d (submit_idea title summary rationale stack tags) =
    do_submit_idea d title summary rationale stack tags
run_handler d (update_setting key value) = do_update_setting d key value
run_handler d (pause_project i) = do_pause i
run_handler d (resume_project i) = do_resume i
run_handler d (abort_project i reason _) =
    modify (KillSwitch.trip_for i reason) >> pure (done kill_tripped)
run_handler d (rescope i scope _) =
    add_note d.characters i (text "[OPERATOR RESCOPE] " ++ scope) (text "human") none
    >> pure (done rescope_queued)
run_handler d (transform_project i scope _) =
    add_note d.characters i (text "[OPERATOR TRANSFORM] " ++ scope) (text "human") none
    >> pure (done transform_queued)
run_handler d (drop_and_start_new i _) =
    modify (KillSwitch.trip_for i (text "drop_and_start_new (operator)")) >> pure (done dropped)
run_handler d (switch_to_idea i idea _) =
    modify (KillSwitch.trip_for i (text "switching to idea " ++ d.show_id idea))
    >> pure (done switched)
run_handler d (reject_idea i _) = pure (done rejection_logged)
run_handler d (kill_switch reason _) = modify (KillSwitch.trip reason) >> pure (done halted)

-- `CommandRouter.dispatch`
unfoldable pub dispatch : RouterDeps → Command → Action CommandResult
dispatch d command =
    if requires_confirmation command
    then pure (record { ok_flag = false; answer = confirm_first; asks_confirmation = true })
    else run_handler d command
