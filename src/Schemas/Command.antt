-- ===== src/Schemas/Command.antt =====
-- schemas/command.py: what an operator can ask for. The constraints that pydantic checks on the
-- lengths of texts hold before a command exists, and are not restated.
use ai_dev_swarm.Common.{ℕ, Bool, true, false, not, List, Option, Text, if◌then◌else◌}

pub data Command : Type 0 where
  approve : (project_id : ℕ) → Command
  inject_note : (project_id : ℕ) (body : Text) (role : Option Text) (author : Text) → Command
  list_state : (project_id : Option ℕ) → Command
  show_transcript : (project_id limit : ℕ) → Command
  ideate_now : (force : Bool) → Command
  submit_idea : (title summary rationale : Text) (stack tags : List Text) → Command
  update_setting : (key value : Text) → Command
  pause_project resume_project : (project_id : ℕ) → Command
  abort_project : (project_id : ℕ) (reason : Text) (confirmed : Bool) → Command
  rescope transform_project : (project_id : ℕ) (scope : Text) (confirmed : Bool) → Command
  drop_and_start_new : (project_id : ℕ) (confirmed : Bool) → Command
  switch_to_idea : (current_project_id new_idea_id : ℕ) (confirmed : Bool) → Command
  reject_idea : (idea_id : ℕ) (confirmed : Bool) → Command
  kill_switch : (reason : Text) (confirmed : Bool) → Command

-- `intent in DESTRUCTIVE_INTENTS`
unfoldable pub destructive : Command → Bool
destructive (abort_project _ _ _) = true
destructive (rescope _ _ _) = true
destructive (transform_project _ _ _) = true
destructive (drop_and_start_new _ _) = true
destructive (switch_to_idea _ _ _) = true
destructive (reject_idea _ _) = true
destructive (kill_switch _ _) = true
destructive _ = false

-- `getattr(command, "confirmed", False)`
unfoldable pub confirmed : Command → Bool
confirmed (abort_project _ _ c) = c
confirmed (rescope _ _ c) = c
confirmed (transform_project _ _ c) = c
confirmed (drop_and_start_new _ c) = c
confirmed (switch_to_idea _ _ c) = c
confirmed (reject_idea _ c) = c
confirmed (kill_switch _ c) = c
confirmed _ = false

unfoldable pub requires_confirmation : Command → Bool
unfolding destructive confirmed
requires_confirmation command = if destructive command then not (confirmed command) else false
