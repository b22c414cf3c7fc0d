-- ===== src/Tick/Tests.antt =====
-- The theorems about the tick at concrete inputs, and runs of the tick.
use ai_dev_swarm.Common.{refl}
use ai_dev_swarm.Schemas.Project.{ProjectState}
use ai_dev_swarm.Samples.{deps, project, running}
use ai_dev_swarm.Tick.{advance_project}
use ai_dev_swarm.Tick.Hops.{OneHop}
use ai_dev_swarm.Tick.Safety.{advance_project-OneHop}

advance_project-OneHop_example :
    OneHop 1 ProjectState.building running
      (advance_project deps (project 1 ProjectState.building) running).1
advance_project-OneHop_example =
    advance_project-OneHop deps (project 1 ProjectState.building) running refl
