-- ===== src/KillSwitch/Simulation.antt =====
-- The two kill switches of tools/kill_switch.py, side by side.
use ai_dev_swarm.Common.{
  ℕ, ◌==◌, ◌≡◌, refl, Bool, true, false, not, ◌&&◌, List, [], ◌∷◌, Text, select, find, update_where,
  is_some, arith, if◌then◌else◌,
}
use ai_dev_swarm.Schemas.Project.{Project}
use ai_dev_swarm.Store.State.{State}
use ai_dev_swarm.Store.Action.{◌>>=◌}
use ai_dev_swarm.Store.Projects
use ai_dev_swarm.Store.Projects.{paused_row, has_id}
use ai_dev_swarm.KillSwitch
use ai_dev_swarm.KillSwitch.InMemory
use ai_dev_swarm.KillSwitch.InMemory.{InMemoryKillSwitch, in_dict, in_set}

-- The calls that change a switch.
pub data SwitchCall : Type 0 where
  trip : (why : Text) → SwitchCall
  reset : SwitchCall
  trip_for : (project_id : ℕ) (why : Text) → SwitchCall
  reset_for pause_for unpause_for : (project_id : ℕ) → SwitchCall

abbrev pub on_redis : SwitchCall → State → State
on_redis (trip why) = KillSwitch.trip why
on_redis reset = KillSwitch.reset
on_redis (trip_for i why) = KillSwitch.trip_for i why
on_redis (reset_for i) = KillSwitch.reset_for i
on_redis (pause_for i) = KillSwitch.pause_for i
on_redis (unpause_for i) = KillSwitch.unpause_for i

abbrev pub in_memory : SwitchCall → InMemoryKillSwitch → InMemoryKillSwitch
in_memory (trip why) = InMemory.trip why
in_memory reset = InMemory.reset
in_memory (trip_for i why) = InMemory.trip_for i why
in_memory (reset_for i) = InMemory.reset_for i
in_memory (pause_for i) = InMemory.pause_for i
in_memory (unpause_for i) = InMemory.unpause_for i

abbrev pub all_on_redis : List SwitchCall → State → State
all_on_redis [] s = s
all_on_redis (c ∷ cs) s = all_on_redis cs (on_redis c s)

abbrev pub all_in_memory : List SwitchCall → InMemoryKillSwitch → InMemoryKillSwitch
all_in_memory [] k = k
all_in_memory (c ∷ cs) k = all_in_memory cs (in_memory c k)

-- The two answer each question alike; a project is paused only where it has a row.
pub record Agree (s : State) (k : InMemoryKillSwitch) : Type 0 where
  pub global : KillSwitch.is_tripped s ≡ k.tripped
  pub project : (i : ℕ) → KillSwitch.is_tripped_for i s ≡ InMemory.is_tripped_for i k
  pub paused :
      (i : ℕ)
      → KillSwitch.is_paused_for i s ≡ (is_some (Projects.row i s) && InMemory.is_paused_for i k)

in_dict-drop :
    (i j : ℕ) (d : List (ℕ × Text))
    → in_dict i (select (λ e. not (e.0 == j)) d) ≡ (in_dict i d && not (i == j))
in_dict-drop i j [] = refl
in_dict-drop i j (e ∷ d) = ground (arith, in_dict-drop i j d)

in_set-drop :
    (i j : ℕ) (xs : List ℕ)
    → in_set i (select (λ x. not (x == j)) xs) ≡ (in_set i xs && not (i == j))
in_set-drop i j [] = refl
in_set-drop i j (x ∷ xs) = ground (arith, in_set-drop i j xs)

-- Whether a row is paused, after `UPDATE projects SET is_paused = paused WHERE id = j`.
paused-update :
    (i j now : ℕ) (paused : Bool) (rows : List Project)
    → (paused_row (
          find
            (has_id i)
            (update_where (has_id j) (λ p. record p { is_paused = paused; updated_at = now }) rows))
        ≡ (if i == j
            then is_some (find (has_id i) rows) && paused
            else paused_row (find (has_id i) rows)))
paused-update i j now paused [] = ground arith
paused-update i j now paused (p ∷ rows) = ground (arith, paused-update i j now paused rows)

stored-update :
    (i j now : ℕ) (paused : Bool) (rows : List Project)
    → is_some (
        find
          (has_id i)
          (update_where (has_id j) (λ p. record p { is_paused = paused; updated_at = now }) rows))
      ≡ is_some (find (has_id i) rows)
stored-update i j now paused [] = refl
stored-update i j now paused (p ∷ rows) = ground (arith, stored-update i j now paused rows)

call-Agree :
    (c : SwitchCall) (s : State) (k : InMemoryKillSwitch)
    → Agree s k
    → Agree (on_redis c s) (in_memory c k)
unfolding KillSwitch.is_tripped KillSwitch.is_tripped_for KillSwitch.is_paused_for KillSwitch.trip
    KillSwitch.reset KillSwitch.trip_for KillSwitch.reset_for KillSwitch.pause_for
    KillSwitch.unpause_for InMemory.trip InMemory.reset InMemory.trip_for InMemory.reset_for
    InMemory.pause_for InMemory.unpause_for InMemory.is_tripped_for InMemory.is_paused_for
    Projects.set_paused ◌>>=◌
call-Agree (trip why) s k a = record {
  global = ground arith;
  project = λ i. ground (arith, a.project i);
  paused = λ i. ground (arith, a.paused i);
}
call-Agree reset s k a = record {
  global = ground arith;
  project = λ i. ground (arith, a.project i);
  paused = a.paused;
}
call-Agree (trip_for j why) s k a = record {
  global = ground (arith, a.global);
  project = λ i. ground (arith, a.project i, in_dict-drop i j k.per_project);
  paused = λ i. ground (arith, a.paused i);
}
call-Agree (reset_for j) s k a = record {
  global = ground (arith, a.global);
  project = λ i. ground (arith, a.project i, in_dict-drop i j k.per_project);
  paused = a.paused;
}
call-Agree (pause_for j) s k a = record {
  global = a.global;
  project = a.project;
  paused = λ i. ground (
    arith,
    a.paused i,
    paused-update i j s.now true s.projects,
    stored-update i j s.now true s.projects,
  );
}
call-Agree (unpause_for j) s k a = record {
  global = a.global;
  project = a.project;
  paused = λ i. ground (
    arith,
    a.paused i,
    in_set-drop i j k.paused,
    paused-update i j s.now false s.projects,
    stored-update i j s.now false s.projects,
  );
}

-- The Redis switch and the process-local one are interchangeable: if they answer alike, they still
-- do after any sequence of calls on both, except that a project without a row cannot be paused.
pub calls-Agree :
    (cs : List SwitchCall) (s : State) (k : InMemoryKillSwitch)
    → Agree s k
    → Agree (all_on_redis cs s) (all_in_memory cs k)
calls-Agree [] s k a = a
calls-Agree (c ∷ cs) s k a = calls-Agree cs (on_redis c s) (in_memory c k) (call-Agree c s k a)
