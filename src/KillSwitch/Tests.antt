-- ===== src/KillSwitch/Tests.antt =====
-- The theorem about the two switches at a concrete input.
use ai_dev_swarm.Common.{refl, false, List, [], ◌∷◌, text, arith}
use ai_dev_swarm.KillSwitch.InMemory.{InMemoryKillSwitch}
use ai_dev_swarm.KillSwitch.InMemory
use ai_dev_swarm.KillSwitch
use ai_dev_swarm.Samples.{running}
use ai_dev_swarm.KillSwitch.Simulation.{
  Agree, SwitchCall, trip, reset_for, trip_for, pause_for, all_on_redis, all_in_memory, calls-Agree,
}

abbrev quiet : InMemoryKillSwitch
quiet = record { tripped = false; why = []; per_project = []; paused = [] }

-- The rows of `running` are not paused.
start-Agree : Agree running quiet
unfolding KillSwitch.is_tripped KillSwitch.is_tripped_for KillSwitch.is_paused_for
    InMemory.is_tripped_for InMemory.is_paused_for
start-Agree = record { global = refl; project = λ i. refl; paused = λ i. ground arith }

abbrev calls : List SwitchCall
calls = trip_for 1 (text "stop") ∷ pause_for 2 ∷ reset_for 1 ∷ trip (text "all") ∷ []

calls-Agree_example : Agree (all_on_redis calls running) (all_in_memory calls quiet)
calls-Agree_example = calls-Agree calls running quiet start-Agree
