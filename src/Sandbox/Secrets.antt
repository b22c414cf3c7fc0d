-- ===== src/Sandbox/Secrets.antt =====
-- What the commands of the CI gate can see of the orchestrator's environment.
use ai_dev_swarm.Common.{
  ◌≡◌, refl, ap, Bool, true, false, List, [], ◌∷◌, ◌++◌, Option, some, none, Text, text, text_eq,
  any, select, pos, if◌then◌else◌,
}
use ai_dev_swarm.Schemas.Exceptions.{Exception, foreign}
use ai_dev_swarm.Store.State.{State}
use ai_dev_swarm.Store.Action.{Action, ◌>>=◌, pure, throw, catch}
use ai_dev_swarm.Sandbox.{
  SandboxDeps, is_zero, fail, group, under, run_sh, install_project, install, run_steps,
  install_and_run, run_gate, on_timeout, finally_remove, run_ci, scrubbed_env,
}

-- A variable that a command may see.
abbrev pub public : Text × Text → Bool
public (name, value) = any (text_eq name) (
    text "PATH"
    ∷ text "HOME"
    ∷ text "LANG"
    ∷ text "LC_ALL"
    ∷ text "LC_CTYPE"
    ∷ text "TERM"
    ∷ text "TMPDIR"
    ∷ text "TMP"
    ∷ text "TEMP"
    ∷ text "USER"
    ∷ text "LOGNAME"
    ∷ text "SHELL"
    ∷ text "SYSTEMROOT"
    ∷ [])

-- Chains of equal calls are equal.
bind-same :
    {A B : Type 0} (m n : Action A) (f g : A → Action B)
    → m ≡ n
    → ((a : A) → f a ≡ g a)
    → (m >>= f) ≡ (n >>= g)
bind-same m n f g h k = λ i. h i >>= (λ a. k a i)

-- The same machine for an orchestrator with another environment.
abbrev pub in_environment : List (Text × Text) → SandboxDeps → SandboxDeps
in_environment environ d = record d { environ = environ }

scrubbed_env-public :
    (e e' : List (Text × Text))
    → select public e ≡ select public e'
    → scrubbed_env e ≡ scrubbed_env e'
unfolding scrubbed_env
scrubbed_env-public e e' h = rw h refl

module _ (d : SandboxDeps) (environ : List (Text × Text)) (ws : Text)
    (same : scrubbed_env environ ≡ scrubbed_env d.environ) where
  abbrev d' : SandboxDeps
  d' = in_environment environ d

  run_sh-same :
      (cmd : List Text) (extra_path : Option Text)
      → run_sh d' ws cmd extra_path ≡ run_sh d ws cmd extra_path
  unfolding run_sh
  run_sh-same cmd extra_path = rw same refl

  install_project-same :
      (python : Text) (declared : Bool)
      → install_project d' ws python declared ≡ install_project d ws python declared
  install_project-same python false = refl
  install_project-same python true = bind-same _ _ _ _ (run_sh-same _ none) (λ first.
      bind-same _ _ _ _
        (ap (λ m. if is_zero first.0 then pure (pos 0, []) else m) (run_sh-same _ none))
        (λ second. refl))

  install-same : (python : Text) → install d' ws python ≡ install d ws python
  unfolding install
  install-same python = bind-same _ _ _ _ refl (λ declared.
      bind-same _ _ _ _ (install_project-same python declared)
        (λ out. bind-same _ _ _ _ (run_sh-same _ none) (λ tools. refl)))

  run_steps-same :
      (bin_dir : Text) (logs : List Text) (steps : List (Text × List Text))
      → run_steps d' ws bin_dir logs steps ≡ run_steps d ws bin_dir logs steps
  unfolding run_steps
  run_steps-same bin_dir logs [] = refl
  run_steps-same bin_dir logs ((label, cmd) ∷ steps) =
      bind-same _ _ _ _ (run_sh-same cmd (some bin_dir)) (λ done.
        let logs' = logs ++ group label done.1 ∷ [] in
        ap (λ m. if is_zero done.0 then m else pure (fail logs' done.0))
          (run_steps-same bin_dir logs' steps))

  install_and_run-same :
      (venv_dir : Text) (logs : List Text)
      → install_and_run d' ws venv_dir logs ≡ install_and_run d ws venv_dir logs
  install_and_run-same venv_dir logs =
      bind-same _ _ _ _ (install-same _) (λ installed.
        bind-same _ _ _ _ refl (λ cs. run_steps-same (under venv_dir (text "bin")) _ _))

  run_gate-same : (venv_dir : Text) → run_gate d' ws venv_dir ≡ run_gate d ws venv_dir
  unfolding run_gate
  run_gate-same venv_dir = bind-same _ _ _ _ (run_sh-same _ none) (λ made.
      let logs = group (text "venv") made.1 ∷ [] in
      ap (λ m. if is_zero made.0 then m else pure (fail logs made.0))
        (install_and_run-same venv_dir logs))

  on_timeout-same : (e : Exception) → on_timeout d' ws e ≡ on_timeout d ws e
  on_timeout-same (foreign type_name message) = refl
  on_timeout-same _ = refl

  run_ci-same : run_ci d' ws ≡ run_ci d ws
  unfolding run_ci
  run_ci-same = bind-same _ _ _ _ refl (λ present.
      ap (λ m. if present then m else throw (foreign (text "FileNotFoundError") ws))
        (bind-same _ _ _ _ refl (λ venv_dir.
          ap (finally_remove d ws venv_dir)
            (λ i. catch (run_gate-same venv_dir i) (λ e. on_timeout-same e i)))))

-- The commands of the gate see nothing of the orchestrator's environment but the values of thirteen
-- variables, which are listed with `public`: two environments with the same values of these give
-- the same run of the gate, whatever the commands do with what they see.
pub run_ci_sees_public :
    (d : SandboxDeps) (environ : List (Text × Text)) (ws : Text) (s : State)
    → select public environ ≡ select public d.environ
    → run_ci (in_environment environ d) ws s ≡ run_ci d ws s
run_ci_sees_public d environ ws s h =
    ap (λ m. m s) (run_ci-same d environ ws (scrubbed_env-public environ d.environ h))
