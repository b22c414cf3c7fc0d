-- ===== src/Sandbox/Docker.antt =====
-- tools/sandbox.py: the sandbox in a container, and the one of the dry runs.
use ai_dev_swarm.Common.{
  Bool, true, false, List, [], ◌∷◌, ◌++◌, Option, none, some, Text, text, text_eq, ℤ, pos,
  if◌then◌else◌,
}
use ai_dev_swarm.Slugs.{Characters, strip_spaces}
use ai_dev_swarm.Schemas.Exceptions.{foreign, Result}
use ai_dev_swarm.Store.State.{World}
use ai_dev_swarm.Store.Action.{Action, ◌>>=◌, pure, throw, gets, on_world}
use ai_dev_swarm.Sandbox.{SandboxRun, is_zero, under}

-- What a finished process leaves.
pub record Process : Type 0 where
  pub returncode : ℤ
  pub stdout : Text
  pub stderr : Text

pub record DockerDeps : Type 0 where
  pub image : Text
  pub resolve : Text → Text
  pub is_dir : Text → World → Bool
  pub run : (cmd : List Text) → World → Result Process × World

abbrev pub docker_cmd : Text → Text → List Text
docker_cmd image ws =
    text "docker"
    ∷ text "run"
    ∷ text "--rm"
    ∷ text "--network=none"
    ∷ text "-v"
    ∷ (ws ++ text ":/workspace:ro")
    ∷ text "-w"
    ∷ text "/workspace"
    ∷ image
    ∷ text "/usr/local/bin/run-ci.sh"
    ∷ []

-- `DockerSandbox.run_ci`
unfoldable pub docker_run_ci : DockerDeps → Text → Action SandboxRun
docker_run_ci d dir = do
  let ws = d.resolve dir
  present ← gets (λ s. d.is_dir ws s.world)
  if present
      then (do
        proc ← on_world (d.run (docker_cmd d.image ws))
        pure (record {
          passed = is_zero proc.returncode;
          stdout = proc.stdout;
          stderr = proc.stderr;
          exit_code = proc.returncode;
        }))
      else throw (foreign (text "FileNotFoundError") dir)

abbrev pub forced_fail : Characters → Option Text → Bool
forced_fail ch none = false
forced_fail ch (some body) = text_eq (strip_spaces ch body) (text "fail")

-- `InMemorySandbox.run_ci`, on the text of the file `ci_status`, if there is one.
unfoldable pub in_memory_run_ci :
    Characters → (Text → World → Option Text) → Text → Action SandboxRun
in_memory_run_ci ch read_file dir = do
  status ← gets (λ s. read_file (under dir (text "ci_status")) s.world)
  if forced_fail ch status
      then pure
          (record { passed = false; stdout = []; stderr = text "forced fail"; exit_code = pos 1 })
      else pure (record { passed = true; stdout = text "ok"; stderr = []; exit_code = pos 0 })
