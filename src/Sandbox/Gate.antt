-- ===== src/Sandbox/Gate.antt =====
-- What a passed CI gate says.
use ai_dev_swarm.Common.{
  ◌≡◌, refl, ap, sym, subst, true, false, List, [], ◌∷◌, ◌++◌, some, none, Text, text, text_eq, map,
  ℤ, pos, negsuc, inl, inr, ◌⊎◌, arith,
}
use ai_dev_swarm.Schemas.Exceptions.{Exception, foreign, ok}
use ai_dev_swarm.Store.State.{State}
use ai_dev_swarm.Store.Action.{pure, on_world, catch}
use ai_dev_swarm.Store.Action.Yields.{Yields, Yields-pure, Yields-throw, Yields-if}
use ai_dev_swarm.Store.Action.Runs.{
  Runs, to_Runs, bind-Runs, pure-Runs, throw-Runs, gets-Runs, if-Runs, catch-Runs,
}
use ai_dev_swarm.Sandbox.{
  SandboxRun, SandboxDeps, is_zero, fail, group, gate_steps, source_dirs, run_sh, install,
  run_steps, install_and_run, run_gate, on_timeout, run_ci,
}

-- The commands that the gate promises: ruff, mypy and bandit on the sources, and pytest.
abbrev promised : Text → List Text → List (List Text)
promised bin_dir src =
    ((bin_dir ++ text "/ruff") ∷ text "check" ∷ text "." ∷ [])
    ∷ ((bin_dir ++ text "/mypy") ∷ text "--strict" ∷ src)
    ∷ ((bin_dir ++ text "/bandit") ∷ text "-r" ∷ (src ++ (text "-ll" ∷ text "-q" ∷ [])))
    ∷ ((bin_dir ++ text "/pytest") ∷ text "-q" ∷ text "-p" ∷ text "no:cacheprovider" ∷ [])
    ∷ []

module _ (d : SandboxDeps) (ws : Text) where
  -- The commands run one after the other, from `s` to `t`, with the directory on their PATH, and
  -- the exit code of each is 0.
  pub data Green (bin_dir : Text) : List (List Text) → State → State → Type 0 where
    all_done : {s : State} → Green bin_dir [] s s
    green :
        {s t u : State} {cmd : List Text} {cmds : List (List Text)} (out : Text)
        → Runs (run_sh d ws cmd (some bin_dir)) s (pos 0, out) t
        → Green bin_dir cmds t u
        → Green bin_dir (cmd ∷ cmds) s u

  -- From `s` on the installation into `venv_dir` runs, and then the promised commands are green.
  abbrev pub FilledGreen : (venv_dir : Text) → State → Type 0
  FilledGreen venv_dir s =
      (filled final : State) × (installed : Text) × Runs
        (install d ws ((venv_dir ++ text "/bin") ++ text "/python")) s installed filled
      × Green (venv_dir ++ text "/bin")
          (promised (venv_dir ++ text "/bin") (source_dirs (d.children ws filled.world))) filled
          final

  -- A run that starts in `s`, where `venv_dir` was made before, makes the environment first.
  abbrev pub MadeGreen : (venv_dir : Text) → State → Type 0
  MadeGreen venv_dir s =
      (out : Text) × (made : State) × Runs
        (run_sh d ws (d.uv ∷ text "venv" ∷ venv_dir ∷ text "--python" ∷ d.executable ∷ []) none) s
        (pos 0, out) made
      × FilledGreen venv_dir made

  -- The same from `s` on, where no directory has been made.
  abbrev pub AllGreen : State → Type 0
  AllGreen s =
      let (venv_dir, w) = d.make_temp s.world in MadeGreen venv_dir (record s { world = w })

  -- What the result of a run says.
  abbrev pub Says : Type 0 → SandboxRun → Type 0
  Says P r =
      ((r.passed ≡ true) × P × (r.exit_code ≡ pos 0))
      ⊎ ((r.passed ≡ false) × (is_zero r.exit_code ≡ false))

  Says-map : (P Q : Type 0) (r : SandboxRun) → (P → Q) → Says P r → Says Q r
  Says-map P Q r f (inl (p, h, e)) = inl (p, f h, e)
  Says-map P Q r f (inr h) = inr h

  zero : (n : ℤ) → is_zero n ≡ true → n ≡ pos 0
  zero (pos n) h = let e : n ≡ 0 = ground arith in rw e refl
  zero (negsuc n) h = cc

  fail-Says :
      (P : Type 0) (logs : List Text) (n : ℤ) (s t : State) (r : SandboxRun)
      → is_zero n ≡ false
      → Runs (pure (fail logs n)) s r t
      → Says P r
  unfolding fail
  fail-Says P logs n s t r h k = subst (Says P) (pure-Runs _ r s t k).0 (inr (refl, h))

  run_steps-Says :
      (bin_dir : Text) (steps : List (Text × List Text)) (logs : List Text) (s t : State)
      (r : SandboxRun)
      → Runs (run_steps d ws bin_dir logs steps) s r t
      → Says ((u : State) × Green bin_dir (map (λ e. e.1) steps) s u) r
  unfolding run_steps
  run_steps-Says bin_dir [] logs s t r k =
      subst (Says _) (pure-Runs _ r s t k).0 (inl (refl, (s, all_done), refl))
  run_steps-Says bin_dir ((label, cmd) ∷ steps) logs s t r k =
      let ((code, out), u, k1, k2) = bind-Runs _ _ s r t k in
      elim (if-Runs (is_zero code) _ _ u r t k2) [
        | inl (h, l) ↦
            let ran =
              subst (λ n. Runs (run_sh d ws cmd (some bin_dir)) s (n, out) u) (zero code h) k1 in
            Says-map _ _ r (λ (v, g). (v, green out ran g)) (run_steps-Says bin_dir steps _ u t r l)
        | inr (h, l) ↦ fail-Says _ _ code u t r h l
      ]

  -- The steps of the gate are the promised commands.
  steps-promised :
      (bin_dir : Text) (src : List Text)
      → map (λ e. e.1) (gate_steps src bin_dir) ≡ promised bin_dir src
  unfolding gate_steps
  steps-promised bin_dir src = refl

  install_and_run-Says :
      (venv_dir : Text) (logs : List Text) (s t : State) (r : SandboxRun)
      → Runs (install_and_run d ws venv_dir logs) s r t
      → Says (FilledGreen venv_dir s) r
  install_and_run-Says venv_dir logs s t r k =
      let (installed, s1, k1, l1) = bind-Runs _ _ s r t k in
      let (cs, s2, k2, l2) = bind-Runs _ _ s1 r t l1 in
      let (e, same) = gets-Runs _ cs s1 s2 k2 in
      let bin_dir = venv_dir ++ text "/bin" in
      Says-map _ _ r
        (λ (u, g). (
          s1,
          u,
          installed,
          k1,
          subst (λ v. Green bin_dir (promised bin_dir (source_dirs (d.children ws s1.world))) v u)
              (sym same)
              (subst (λ xs. Green bin_dir (promised bin_dir (source_dirs xs)) s2 u) (sym e)
                (subst (λ cmds. Green bin_dir cmds s2 u) (steps-promised bin_dir (source_dirs cs))
                  g)),
        ))
        (run_steps-Says bin_dir _ _ s2 t r l2)

  run_gate-Says :
      (venv_dir : Text) (s t : State) (r : SandboxRun)
      → Runs (run_gate d ws venv_dir) s r t
      → Says (MadeGreen venv_dir s) r
  unfolding run_gate
  run_gate-Says venv_dir s t r k =
      let ((code, out), u, k1, k2) = bind-Runs _ _ s r t k in
      let cmd = d.uv ∷ text "venv" ∷ venv_dir ∷ text "--python" ∷ d.executable ∷ [] in
      elim (if-Runs (is_zero code) _ _ u r t k2) [
        | inl (h, l) ↦
            let ran = subst (λ n. Runs (run_sh d ws cmd none) s (n, out) u) (zero code h) k1 in
            Says-map _ _ r (λ g. (out, u, ran, g))
              (install_and_run-Says venv_dir (group (text "venv") out ∷ []) u t r l)
        | inr (h, l) ↦ fail-Says _ _ code u t r h l
      ]

  on_timeout-Says : (P : Type 0) (e : Exception) → Yields (Says P) (on_timeout d ws e)
  on_timeout-Says P (foreign type_name message) =
      Yields-if (text_eq type_name (text "TimeoutExpired")) _ _ (Yields-pure _ (inr (refl, refl)))
        (Yields-throw _)
  on_timeout-Says P _ = Yields-throw _

  guarded-Says :
      (venv_dir : Text) (s t : State) (r : SandboxRun)
      → Runs (catch (run_gate d ws venv_dir) (on_timeout d ws)) s r t
      → Says (MadeGreen venv_dir s) r
  guarded-Says venv_dir s t r k = elim (catch-Runs _ _ s r t k) [
    | inl l ↦ run_gate-Says venv_dir s t r l
    | inr (e, u, _, l) ↦ (on_timeout-Says (MadeGreen venv_dir s) e).at u r (ap (λ p. p.0) l)
  ]

  run_ci-Says : (s t : State) (r : SandboxRun) → Runs (run_ci d ws) s r t → Says (AllGreen s) r
  unfolding run_ci on_world
  run_ci-Says s t r k =
      let (present, s1, k1, l1) = bind-Runs _ _ s r t k in
      let (_, same) = gets-Runs _ present s s1 k1 in
      elim (if-Runs present _ _ s1 r t l1) [
        | inl (_, l2) ↦
            let (venv_dir, s2, k2, l3) = bind-Runs _ _ s1 r t l2 in
            let e : (d.make_temp s1.world).0 ≡ venv_dir = let h = ap (λ p. p.0) k2 in cc in
            let guarded =
              to_Runs (catch (run_gate d ws venv_dir) (on_timeout d ws)) s2 r (ap (λ p. p.0) l3) in
            subst (λ u. Says (AllGreen u) r) (sym same)
              (subst (λ v. Says (MadeGreen v (record s1 { world = (d.make_temp s1.world).1 })) r)
                (sym e)
                (subst (λ u. Says (MadeGreen venv_dir u) r) (sym (ap (λ p. p.1) k2))
                  (guarded-Says venv_dir s2 _ r guarded)))
        | inr (_, l2) ↦ absurd (throw-Runs _ r s1 t l2)
      ]

-- The gate tells the truth about its commands: when it returns a run that passed, its exit code is 0,
-- and in that very run, one call after the other, the environment was made with exit code 0, the
-- installation ran, and ruff, mypy in its strict mode, bandit, and pytest ran, each with exit
-- code 0, mypy and bandit on the source directories that were listed after the installation; when
-- it returns any other run, its exit code is not 0.
pub gate_reports :
    (d : SandboxDeps) (ws : Text) (s : State) (r : SandboxRun)
    → (run_ci d ws s).0 ≡ ok r
    → Says d ws (AllGreen d ws s) r
gate_reports d ws s r e = run_ci-Says d ws s _ r (to_Runs (run_ci d ws) s r e)
