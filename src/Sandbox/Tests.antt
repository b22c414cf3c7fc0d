-- ===== src/Sandbox/Tests.antt =====
-- The theorems about the CI gate at concrete inputs.
use ai_dev_swarm.Common.{◌≡◌, refl, true, [], ◌∷◌, text, text_eq, any, pos, if◌then◌else◌}
use ai_dev_swarm.Schemas.Exceptions.{ok}
use ai_dev_swarm.Store.Action.{◌>>=◌, catch}
use ai_dev_swarm.Samples.{running}
use ai_dev_swarm.Sandbox.{
  SandboxDeps, SandboxRun, run_ci, run_gate, run_sh, install, run_steps, gate_steps, source_dirs,
  fail, group,
}
use ai_dev_swarm.Sandbox.Gate.{Says, AllGreen, gate_reports}
use ai_dev_swarm.Sandbox.Secrets.{in_environment, run_ci_sees_public}
use ai_dev_swarm.Steering.Renderer.{join}

-- A machine on which only bandit finds something.
abbrev machine : SandboxDeps
machine = record {
  uv = text "uv";
  executable = text "python";
  timeout = 1800;
  environ = (text "PATH", text "/bin") ∷ (text "GITHUB_TOKEN", text "x") ∷ [];
  pathsep = text ":";
  make_temp = λ w. (text "/tmp/ci", w);
  remove_temp = λ dir w. w;
  is_dir = λ dir w. true;
  has_file = λ ws name w. true;
  children = λ ws w. record { name = text "src"; is_dir = true; has_python = true } ∷ [];
  sh = λ ws cmd env w. (
    ok (
        if any (text_eq (text "/tmp/ci/bin/bandit")) cmd
        then (pos 1, text "weak hash")
        else (pos 0, text "fine")),
    w,
  );
}

abbrev found_by_bandit : SandboxRun
found_by_bandit =
    fail
      (group (text "venv") (text "fine")
        ∷ group (text "install") (text "finefine")
        ∷ group (text "ruff") (text "fine")
        ∷ group (text "mypy") (text "fine")
        ∷ group (text "bandit") (text "weak hash")
        ∷ [])
      (pos 1)

stops_at_bandit : (run_ci machine (text "/ws") running).0 ≡ ok found_by_bandit
unfolding run_ci ◌>>=◌ catch run_gate run_sh install run_steps gate_steps source_dirs
stops_at_bandit = refl

-- The same machine when bandit finds nothing.
abbrev clean_machine : SandboxDeps
clean_machine = record machine { sh = λ ws cmd env w. (ok (pos 0, text "fine"), w) }

abbrev found_by_none : SandboxRun
found_by_none = record {
  passed = true;
  stdout = join (text "\n") (
      group (text "venv") (text "fine")
      ∷ group (text "install") (text "finefine")
      ∷ group (text "ruff") (text "fine")
      ∷ group (text "mypy") (text "fine")
      ∷ group (text "bandit") (text "fine")
      ∷ group (text "pytest") (text "fine")
      ∷ []);
  stderr = [];
  exit_code = pos 0;
}

passes_all : (run_ci clean_machine (text "/ws") running).0 ≡ ok found_by_none
unfolding run_ci ◌>>=◌ catch run_gate run_sh install run_steps gate_steps source_dirs
passes_all = refl

gate_reports_example :
    Says clean_machine (text "/ws") (AllGreen clean_machine (text "/ws") running) found_by_none
gate_reports_example = gate_reports clean_machine (text "/ws") running found_by_none passes_all

run_ci_sees_public_example :
    run_ci (in_environment ((text "PATH", text "/bin") ∷ []) machine) (text "/ws") running
    ≡ run_ci machine (text "/ws") running
run_ci_sees_public_example =
    run_ci_sees_public machine ((text "PATH", text "/bin") ∷ []) (text "/ws") running refl
