-- ===== src/Sandbox.antt =====
-- tools/sandbox.py: the CI gate. Parameters: what a subprocess returns or raises, what the
-- workspace holds, and the names of the temporary directory and of the programs.
pub mod Docker
pub mod Gate
pub mod Secrets
mod Tests
use ai_dev_swarm.Common.{
  ℕ, ◌+◌, ◌-◌, ◌==◌, Bool, true, false, not, ◌&&◌, ◌||◌, List, [], ◌∷◌, ◌++◌, Option, none, some,
  Text, text, text_eq, any, select, map, length, drop, ℤ, pos, negsuc, str, is_some, if◌then◌else◌,
}
use ai_dev_swarm.Schemas.Exceptions.{Exception, foreign, Result, ok, raise}
use ai_dev_swarm.Steering.Renderer.{join}
use ai_dev_swarm.Store.State.{World}
use ai_dev_swarm.Store.Action.{Action, ◌>>=◌, ◌>>◌, pure, throw, gets, on_world, run_world, catch}

pub record SandboxRun : Type 0 where
  pub passed : Bool
  pub stdout : Text
  pub stderr : Text
  pub exit_code : ℤ

-- A top-level entry of the workspace, in the order of the names.
pub record Child : Type 0 where
  pub name : Text
  pub is_dir : Bool
  pub has_python : Bool

-- What `SubprocessSandbox` works with: `environ` is the environment of the orchestrator, and `sh`
-- gives the exit code and the output of a command that runs in the workspace with an environment.
pub record SandboxDeps : Type 0 where
  pub uv : Text
  pub executable : Text
  pub timeout : ℕ
  pub environ : List (Text × Text)
  pub pathsep : Text
  pub make_temp : World → Text × World
  pub remove_temp : Text → World → World
  pub is_dir : Text → World → Bool
  pub has_file : (workspace name : Text) → World → Bool
  pub children : (workspace : Text) → World → List Child
  pub sh :
      (workspace : Text) (cmd : List Text) (env : List (Text × Text))
      → World
      → Result (ℤ × Text) × World

-- `str(n)`
abbrev pub str_int : ℤ → Text
str_int (pos n) = str n
str_int (negsuc n) = text "-" ++ str (n + 1)

-- `t[-n:]`, for a positive `n`
abbrev pub last_chars : ℕ → Text → Text
last_chars n t = drop (length t - n) t

-- `_group`
unfoldable pub group : Text → Text → Text
group label body = text "::group::" ++ (label ++ (text "\n" ++ (body ++ text "\n::endgroup::")))

-- `_fail`
unfoldable pub fail : List Text → ℤ → SandboxRun
fail logs exit_code = record {
  passed = false;
  stdout = join (text "\n") logs;
  stderr = last_chars 2000 (join (text "\n") logs);
  exit_code = exit_code;
}

abbrev pub is_zero : ℤ → Bool
is_zero (pos n) = n == 0
is_zero (negsuc n) = false

-- `_NON_SOURCE_DIRS`
abbrev pub non_source_dirs : List Text
non_source_dirs =
    text "tests"
    ∷ text "test"
    ∷ text "vendor"
    ∷ text "alembic"
    ∷ text "migrations"
    ∷ text "build"
    ∷ text "dist"
    ∷ text "docs"
    ∷ text "scripts"
    ∷ []

abbrev pub hidden : Text → Bool
hidden [] = false
hidden (c ∷ name) = text_eq (c ∷ []) (text ".")

abbrev pub is_source : Child → Bool
is_source c =
    c.is_dir && not (hidden c.name || any (text_eq c.name) non_source_dirs) && c.has_python

abbrev pub or_here : List Text → List Text
or_here [] = text "." ∷ []
or_here (d ∷ ds) = d ∷ ds

-- `_source_dirs`
unfoldable pub source_dirs : List Child → List Text
source_dirs cs =
    if any (λ c. c.is_dir && text_eq c.name (text "src")) cs
    then text "src" ∷ []
    else or_here (map (λ c. c.name) (select is_source cs))

abbrev pub under : Text → Text → Text
under dir name = dir ++ (text "/" ++ name)

-- `_gate_steps`
unfoldable pub gate_steps : List Text → Text → List (Text × List Text)
gate_steps src bin_dir =
    (text "ruff", under bin_dir (text "ruff") ∷ text "check" ∷ text "." ∷ [])
    ∷ (text "mypy", under bin_dir (text "mypy") ∷ text "--strict" ∷ src)
    ∷ (
      text "bandit",
      under bin_dir (text "bandit") ∷ text "-r" ∷ (src ++ (text "-ll" ∷ text "-q" ∷ [])),
    )
    ∷ (
      text "pytest",
      under bin_dir (text "pytest") ∷ text "-q" ∷ text "-p" ∷ text "no:cacheprovider" ∷ [],
    )
    ∷ []

-- `_SANDBOX_ENV_ALLOW`
abbrev pub sandbox_env_allow : List Text
sandbox_env_allow =
    text "PATH"
    ∷ text "HOME"
    ∷ text "LANG"
    ∷ text "LC_ALL"
    ∷ text "LC_CTYPE"
    ∷ text "TERM"
    ∷ text "TMPDIR"
    ∷ text "TMP"
    ∷ text "TEMP"
    ∷ text "USER"
    ∷ text "LOGNAME"
    ∷ text "SHELL"
    ∷ text "SYSTEMROOT"
    ∷ []

abbrev pub env_has : Text → List (Text × Text) → Bool
env_has key env = any (λ e. text_eq key e.0) env

-- `_scrubbed_env`, on the environment's entries
unfoldable pub scrubbed_env : List (Text × Text) → List (Text × Text)
scrubbed_env environ =
    let env = select (λ e. any (text_eq e.0) sandbox_env_allow) environ in
    let flag = text "PYTHONDONTWRITEBYTECODE" in
    if env_has flag env then env else env ++ (flag, text "1") ∷ []

-- `env.get(key, "")`
abbrev pub env_get : Text → List (Text × Text) → Text
env_get key [] = []
env_get key ((k, v) ∷ env) = let rest = env_get key env in if text_eq key k then v else rest

-- `env[key] = value`
abbrev pub env_set : (key value : Text) → List (Text × Text) → List (Text × Text)
env_set key value [] = (key, value) ∷ []
env_set key value ((k, v) ∷ env) =
    let rest = env_set key value env in if text_eq key k then (k, value) ∷ env else (k, v) ∷ rest

-- The environment of a command, with the directory that is put before its PATH.
unfoldable pub with_path : Text → Option Text → List (Text × Text) → List (Text × Text)
with_path pathsep none env = env
with_path pathsep (some []) env = env
with_path pathsep (some (c ∷ dir)) env =
    env_set (text "PATH") ((c ∷ dir) ++ (pathsep ++ env_get (text "PATH") env)) env

module _ (d : SandboxDeps) (ws : Text) where
  -- `_sh`
  unfoldable pub run_sh : List Text → Option Text → Action (ℤ × Text)
  run_sh cmd extra_path =
      on_world (d.sh ws cmd (with_path d.pathsep extra_path (scrubbed_env d.environ)))

  -- `_uv_pip`
  abbrev pub uv_pip : Text → List Text → Action (ℤ × Text)
  uv_pip python args =
      run_sh (d.uv ∷ text "pip" ∷ text "install" ∷ text "--python" ∷ python ∷ args) none

  abbrev pub install_project : Text → Bool → Action Text
  install_project python false = pure []
  install_project python true = do
    first ← uv_pip python (text "-e" ∷ text ".[dev]" ∷ [])
    second ← if is_zero first.0 then pure (pos 0, []) else uv_pip python (text "-e" ∷ text "." ∷ [])
    pure (first.1 ++ second.1)

  -- `_install`
  unfoldable pub install : Text → Action Text
  install python = do
    declared ← gets (λ s.
        d.has_file ws (text "pyproject.toml") s.world || d.has_file ws (text "setup.py") s.world)
    out ← install_project python declared
    tools ←
        uv_pip python
          (text "ruff" ∷ text "mypy" ∷ text "pytest" ∷ text "hypothesis" ∷ text "bandit" ∷ [])
    pure (out ++ tools.1)

  -- The loop over the steps.
  unfoldable pub run_steps : Text → List Text → List (Text × List Text) → Action SandboxRun
  run_steps bin_dir logs [] =
      pure
        (record { passed = true; stdout = join (text "\n") logs; stderr = []; exit_code = pos 0 })
  run_steps bin_dir logs ((label, cmd) ∷ steps) = do
    done ← run_sh cmd (some bin_dir)
    let logs' = logs ++ group label done.1 ∷ []
    if is_zero done.0 then run_steps bin_dir logs' steps else pure (fail logs' done.0)

  abbrev pub install_and_run : Text → List Text → Action SandboxRun
  install_and_run venv_dir logs = do
    let bin_dir = under venv_dir (text "bin")
    installed ← install (under bin_dir (text "python"))
    cs ← gets (λ s. d.children ws s.world)
    run_steps bin_dir (logs ++ group (text "install") installed ∷ [])
        (gate_steps (source_dirs cs) bin_dir)

  -- `_run_gate`
  unfoldable pub run_gate : Text → Action SandboxRun
  run_gate venv_dir = do
    made ← run_sh (d.uv ∷ text "venv" ∷ venv_dir ∷ text "--python" ∷ d.executable ∷ []) none
    let logs = group (text "venv") made.1 ∷ []
    if is_zero made.0 then install_and_run venv_dir logs else pure (fail logs made.0)

  -- `except subprocess.TimeoutExpired`
  abbrev pub on_timeout : Exception → Action SandboxRun
  on_timeout (foreign type_name message) =
      if text_eq type_name (text "TimeoutExpired")
      then pure (record {
        passed = false;
        stdout = [];
        stderr = text "CI timed out after " ++ (str d.timeout ++ (text "s: " ++ message));
        exit_code = pos 124;
      })
      else throw (foreign type_name message)
  on_timeout e = throw e

  abbrev pub make_temp_dir : World → Result Text × World
  make_temp_dir w = let (dir, w') = d.make_temp w in (ok dir, w')

  -- `finally: shutil.rmtree(venv_dir, ignore_errors=True)`
  abbrev pub finally_remove : Text → Action SandboxRun → Action SandboxRun
  finally_remove venv_dir m s =
      let (r, t) = m s in (r, record t { world = d.remove_temp venv_dir t.world })

  -- `SubprocessSandbox.run_ci`
  unfoldable pub run_ci : Action SandboxRun
  run_ci = do
    present ← gets (λ s. d.is_dir ws s.world)
    if present
        then (do
          venv_dir ← on_world make_temp_dir
          finally_remove venv_dir (catch (run_gate venv_dir) on_timeout))
        else throw (foreign (text "FileNotFoundError") ws)
