-- ===== src/KillSwitch/InMemory.antt =====
-- tools/kill_switch.py, `InMemoryKillSwitch`; its dictionary is a list of pairs, the newest first.
use ai_dev_swarm.Common.{
  ℕ, ◌==◌, Bool, true, false, List, [], ◌∷◌, Text, any, select, not, if◌then◌else◌,
}

pub record InMemoryKillSwitch : Type 0 where
  pub tripped : Bool
  pub why : Text
  pub per_project : List (ℕ × Text)
  pub paused : List ℕ

abbrev pub in_dict : ℕ → List (ℕ × Text) → Bool
in_dict i d = any (λ e. e.0 == i) d

abbrev pub in_set : ℕ → List ℕ → Bool
in_set i xs = any (λ j. j == i) xs

unfoldable pub trip : Text → InMemoryKillSwitch → InMemoryKillSwitch
trip why k = record k { tripped = true; why = why }

unfoldable pub reset : InMemoryKillSwitch → InMemoryKillSwitch
reset k = record k { tripped = false; why = [] }

unfoldable pub is_tripped_for : ℕ → InMemoryKillSwitch → Bool
is_tripped_for i k = in_dict i k.per_project

unfoldable pub trip_for : ℕ → Text → InMemoryKillSwitch → InMemoryKillSwitch
trip_for i why k = record k { per_project = (i, why) ∷ select (λ e. not (e.0 == i)) k.per_project }

unfoldable pub reset_for : ℕ → InMemoryKillSwitch → InMemoryKillSwitch
reset_for i k = record k { per_project = select (λ e. not (e.0 == i)) k.per_project }

unfoldable pub is_paused_for : ℕ → InMemoryKillSwitch → Bool
is_paused_for i k = in_set i k.paused

unfoldable pub pause_for : ℕ → InMemoryKillSwitch → InMemoryKillSwitch
pause_for i k = record k { paused = if in_set i k.paused then k.paused else i ∷ k.paused }

unfoldable pub unpause_for : ℕ → InMemoryKillSwitch → InMemoryKillSwitch
unpause_for i k = record k { paused = select (λ j. not (j == i)) k.paused }
