-- ===== src/Schemas/Transitions/Tests.antt =====
-- The theorems about the transition tables at concrete states.
use ai_dev_swarm.Common.{◌≡◌, refl}
use ai_dev_swarm.Schemas.Project.{ProjectState}
use ai_dev_swarm.Schemas.Transitions.Lifecycle.{Route, here, hops, not_stuck, terminal_stays}

not_stuck_example :
    Route ProjectState.blocked ProjectState.done × Route ProjectState.blocked ProjectState.killed
not_stuck_example = not_stuck ProjectState.blocked refl

terminal_stays_example :
    (hops (here {s = ProjectState.killed}) ≡ 0) × (ProjectState.killed ≡ ProjectState.killed)
terminal_stays_example = terminal_stays {s = ProjectState.killed} refl here
