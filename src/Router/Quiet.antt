-- ===== src/Router/Quiet.antt =====
-- The handlers that change no project's state.
use ai_dev_swarm.Common.{ℕ, refl, Bool, true, false, Option, Text, arith, Bool-cases, inl, inr}
use ai_dev_swarm.KillSwitch
use ai_dev_swarm.Schemas.Exceptions.{Result, ok, raise}
use ai_dev_swarm.Settings.{SettingValue}
use ai_dev_swarm.SettingsStore.{apply_override}
use ai_dev_swarm.Steering.{add_note}
use ai_dev_swarm.Store.State.{State}
use ai_dev_swarm.Store.Action.{modify}
use ai_dev_swarm.Store.Action.Keeps.{Keeps, keeps_rules}
use ai_dev_swarm.Store.Projects.Rows.{
  same_states, SameStates, set_status_detail-SameStates, set_paused-SameStates,
}
use ai_dev_swarm.SettingsStore.{is_editable}
use ai_dev_swarm.Slugs.{Characters}
use ai_dev_swarm.Router.{RouterDeps, do_pause, do_ideate_now, do_update_setting, store_override}

pub pause-SameStates : (i : ℕ) → Keeps same_states (modify (KillSwitch.pause_for i))
unfolding modify KillSwitch.pause_for
pause-SameStates i = record { at = (set_paused-SameStates i true).at }

pub unpause-SameStates : (i : ℕ) → Keeps same_states (modify (KillSwitch.unpause_for i))
unfolding modify KillSwitch.unpause_for
unpause-SameStates i = record { at = (set_paused-SameStates i false).at }

pub reset_for-SameStates : (i : ℕ) → Keeps same_states (modify (KillSwitch.reset_for i))
unfolding modify KillSwitch.reset_for
reset_for-SameStates i = record { at = λ s j. refl }

pub trip-SameStates : (why : Text) → Keeps same_states (modify (KillSwitch.trip why))
unfolding modify KillSwitch.trip
trip-SameStates why = record { at = λ s j. ground arith }

pub trip_for-SameStates :
    (i : ℕ) (why : Text) → Keeps same_states (modify (KillSwitch.trip_for i why))
unfolding modify KillSwitch.trip_for
trip_for-SameStates i why = record { at = λ s j. ground arith }

pub add_note-SameStates :
    (ch : Characters) (i : ℕ) (body author : Text) (role : Option Text)
    → Keeps same_states (add_note ch i body author role)
unfolding add_note
add_note-SameStates ch i body author role = record { at = λ s j. ground arith }

pub do_pause-SameStates : (i : ℕ) → Keeps same_states (do_pause i)
unfolding do_pause
do_pause-SameStates i = search (keeps_rules, pause-SameStates, set_status_detail-SameStates) depth 8

pub do_ideate_now-SameStates :
    (d : RouterDeps) (force : Bool) → Keeps same_states (do_ideate_now d force)
unfolding do_ideate_now
do_ideate_now-SameStates d force = search keeps_rules depth 10

store_override-SameStates :
    (key value : Text) (s : State) (r : Result SettingValue × (Text → Option SettingValue))
    → SameStates s (store_override key value s r).1
store_override-SameStates key value s (ok v, live) j = refl
store_override-SameStates key value s (raise e, live) j = refl

pub do_update_setting-SameStates :
    (d : RouterDeps) (key value : Text) → Keeps same_states (do_update_setting d key value)
unfolding do_update_setting
do_update_setting-SameStates d key value = record { at = λ s. at s }
  where
    at : (s : State) → SameStates s (do_update_setting d key value s).1
    at s = elim (Bool-cases (is_editable key)) [
      | inl e ↦ rw e (
          store_override-SameStates key _ s
            (apply_override d.characters d.numbers key value s.live))
      | inr e ↦ rw e (λ j. refl)
    ]
