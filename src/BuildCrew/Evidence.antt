-- ===== src/BuildCrew/Evidence.antt =====
-- What the crew's approval of a milestone rests on, and the parts of it: the repaired gate, the
-- caps, and the reviewer's answer.
use ai_dev_swarm.Common.{
  ℕ, zero, suc, ◌+◌, ◌≡◌, ◌∙◌, sym, ap, subst, true, false, Option, none, some, Text, text, ◌++◌,
  str, pos, ◌⊎◌, inl, inr, if◌then◌else◌,
}
use ai_dev_swarm.Budget.{can_spend}
use ai_dev_swarm.Schemas.Exceptions.{ok}
use ai_dev_swarm.Schemas.Milestone.{Milestone, MilestoneBuildResult}
use ai_dev_swarm.Steering.{pull_unconsumed}
use ai_dev_swarm.Steering.Renderer.{format_notes}
use ai_dev_swarm.Store.State.{State}
use ai_dev_swarm.Store.Action.{pure, on_world}
use ai_dev_swarm.Store.Action.Runs.{Runs, bind-Runs, pure-Runs, throw-Runs, query-Runs, if-Runs}
use ai_dev_swarm.Sandbox.{SandboxRun}
use ai_dev_swarm.Sdk.Invocation.{SdkResult, developer, tester}
use ai_dev_swarm.Sdk.Session.{run_sync}
use ai_dev_swarm.BuildCrew.{
  ReviewerOutput, BuildDeps, extract, emit, ensure_budget, review_context, run_ci,
  ci_repair_context, repair_loop, repair_ci, run_reviewer, unparseable, or_again, verdict_or,
  review,
}

module _ (d : BuildDeps) (m : Milestone) where
  -- In the state `s` the caps allow a further call for the milestone.
  abbrev pub Allowed : State → Type 0
  Allowed s = can_spend d.sdk.settings (some m.id) (pos 0) s ≡ ok true

  -- The last repair: the developer's run on a run of the gate that failed, the run of the gate after
  -- it, and the announcement, with which the repair ends.
  pub record Repaired (fixed : SdkResult) (ci : SandboxRun) (t : State) : Type 0 where
    pub failed : SandboxRun
    pub prior : State
    pub before : State
    pub after : State
    pub attempt : ℕ
    pub not_passed : failed.passed ≡ false
    pub fixes :
        Runs
          (run_sync d.sdk developer m none none
            (some (ci_repair_context d.sdk.prices.characters failed)))
          prior
          fixed
          before
    pub fixed_success : fixed.success ≡ true
    pub reran : Runs (run_ci d m) before ci after
    pub announced :
        Runs
          (emit d m
            (text "ci_repaired")
            (text "CI gate passed after repair attempt " ++ str attempt))
          after
          tt
          t

  -- The gate that starts in `s`, after the tester's run, passes at once, or after repairs. `fixed`
  -- is the developer's last run.
  pub data Passed (dev : SdkResult) (s t : State) (fixed : SdkResult) (ci : SandboxRun)
      : Type 0 where
    at_once : ci.passed ≡ true → Runs (run_ci d m) s ci t → dev ≡ fixed → Passed dev s t fixed ci
    repaired :
        (first : SandboxRun) (u : State)
        → Runs (run_ci d m) s first u
        → first.passed ≡ false
        → Runs (repair_ci d m dev first) u (fixed, ci) t
        → ci.passed ≡ true
        → Repaired fixed ci t
        → Passed dev s t fixed ci

  -- The reviewer, asked with `ctx` in the state `s`, answers with the verdict `r`.
  abbrev pub Gives : (backstory ctx : Text) → State → MilestoneBuildResult → Type 0
  Gives backstory ctx s r =
      (output : ReviewerOutput) × ((d.reviewer backstory ctx s.world).0 ≡ ok output)
      × (extract output ≡ some r)

  -- The verdict `r` is the reviewer's first answer, or the second after one that could not be read.
  abbrev pub Answered : (backstory ctx : Text) → State → MilestoneBuildResult → Type 0
  Answered backstory ctx s r =
      Gives backstory ctx s r
      ⊎ ((t : State) × Runs (run_reviewer d m backstory ctx) s none t × Gives backstory ctx t r)

  -- The reviewer, who starts in `s` with the notes that wait there, gives the verdict `r` when asked
  -- with `ctx`.
  pub record Signed (s : State) (ctx : Text) (r : MilestoneBuildResult) : Type 0 where
    pub backstory : Text
    pub answered :
        Answered backstory ctx
          (record s { world = (pull_unconsumed m.project_id (text "Reviewer") s.world).1 })
          r

  -- What an approval in a run from `s` rests on: each call starts where the one before it ended.
  pub record Approved (s : State) (r : MilestoneBuildResult) : Type 0 where
    pub dev : SdkResult
    pub fixed : SdkResult
    pub test : SdkResult
    pub ci : SandboxRun
    pub started : State
    pub built : State
    pub tested : State
    pub gated : State
    pub announced : State
    pub start :
        Runs (emit d m (text "milestone_start") (text "Build started: " ++ m.title)) s tt started
    pub develops : Runs (run_sync d.sdk developer m none none none) started dev built
    pub dev_success : dev.success ≡ true
    pub allowed_tester : Allowed built
    pub tests :
        Runs
          (run_sync d.sdk tester m (some d.sdk.settings.tester_max_turns) none none)
          built
          test
          tested
    pub test_success : test.success ≡ true
    pub passes : Passed dev tested gated fixed ci
    pub announces : Runs (emit d m (text "ci_passed") (text "CI gate passed")) gated tt announced
    pub allowed_reviewer : Allowed announced
    pub signs : Signed announced (review_context d m fixed test ci) r

  pub ensure_budget-Allowed : (s t : State) → Runs (ensure_budget d m) s tt t → Allowed s × (s ≡ t)
  unfolding ensure_budget
  ensure_budget-Allowed s t r =
      let (allowed, u, r1, r2) = bind-Runs _ _ s tt t r in
      let (e, same) = query-Runs _ allowed s u r1 in
      elim (if-Runs allowed _ _ u tt t r2) [
        | inl (h, k) ↦ (e ∙ ap ok h, same ∙ (pure-Runs tt tt u t k).1)
        | inr (h, k) ↦ absurd (throw-Runs _ tt u t k)
      ]

  repair_loop-Passed :
      (left i attempts : ℕ) (dev fixed : SdkResult) (ci last : SandboxRun) (s t : State)
      → Runs (repair_loop d m left i attempts dev ci) s (fixed, last) t
      → ci.passed ≡ false
      → last.passed ≡ true
      → Repaired fixed last t
  unfolding repair_loop
  repair_loop-Passed zero i attempts dev fixed ci last s t r f p =
      let e : ci ≡ last = ap (λ x. x.1) (pure-Runs _ _ s t r).0 in cc
  repair_loop-Passed (suc left) i attempts dev fixed ci last s t r f p =
      let (_, u1, _, r1) = bind-Runs _ _ s _ t r in
      let (_, u2, _, r2) = bind-Runs _ _ u1 _ t r1 in
      let (now_fixed, u3, run_fix, r3) = bind-Runs _ _ u2 _ t r2 in
      elim (if-Runs now_fixed.success _ _ u3 _ t r3) [
        | inl (good, k) ↦
            let (next, u4, k1, k2) = bind-Runs _ _ u3 _ t k in
            elim (if-Runs next.passed _ _ u4 _ t k2) [
              | inl (_, l) ↦
                  let (_, u5, l1, l2) = bind-Runs _ _ u4 _ t l in
                  let (e, same) = pure-Runs _ _ u5 t l2 in
                  record {
                    failed = ci;
                    prior = u2;
                    not_passed = f;
                    fixes =
                        subst
                          (λ x.
                            Runs
                              (run_sync d.sdk developer m none none
                                (some (ci_repair_context d.sdk.prices.characters ci)))
                              u2 x u3)
                          (ap (λ x. x.0) e) run_fix;
                    fixed_success = subst (λ x. x.success ≡ true) (ap (λ x. x.0) e) good;
                    before = u3;
                    after = u4;
                    attempt = i;
                    reran = subst (λ x. Runs (run_ci d m) u3 x u4) (ap (λ x. x.1) e) k1;
                    announced = rw same at l1;
                  }
              | inr (h, l) ↦
                  repair_loop-Passed left (i + 1) attempts now_fixed fixed next last u4 t l h p
            ]
        | inr (_, k) ↦ let e : ci ≡ last = ap (λ x. x.1) (pure-Runs _ _ u3 t k).0 in cc
      ]

  pub gate-Passed :
      (dev fixed : SdkResult) (first ci : SandboxRun) (s u t : State)
      → Runs (run_ci d m) s first u
      → Runs (if first.passed then pure (dev, first) else repair_ci d m dev first) u (fixed, ci) t
      → ci.passed ≡ true
      → Passed dev s t fixed ci
  unfolding repair_ci
  gate-Passed dev fixed first ci s u t r k p = elim (if-Runs first.passed _ _ u _ t k) [
    | inl (h, l) ↦
        let (e, same) = pure-Runs _ _ u t l in
        at_once p (rw (same, ap (λ x. x.1) e) at r) (ap (λ x. x.0) e)
    | inr (h, l) ↦ repaired first u r h l p (repair_loop-Passed _ 1 _ dev fixed first ci u t l h p)
  ]

  run_reviewer-Gives :
      (backstory ctx : Text) (s t : State) (r : MilestoneBuildResult)
      → Runs (run_reviewer d m backstory ctx) s (some r) t
      → Gives backstory ctx s r
  unfolding run_reviewer on_world
  run_reviewer-Gives backstory ctx s t r k =
      let (output, u1, k1, l1) = bind-Runs _ _ s (some r) t k in
      let (_, u2, _, l2) = bind-Runs _ _ u1 (some r) t l1 in
      (output, ap (λ p. p.0) k1, (pure-Runs _ (some r) u2 t l2).0)

  answers :
      (backstory ctx : Text) (first o : Option MilestoneBuildResult) (dev test : SdkResult)
      (s t u : State) (r : MilestoneBuildResult)
      → (let reviewer = run_reviewer d m backstory ctx in
          Runs reviewer s first t
          → Runs (or_again d m first reviewer) t o u
          → verdict_or d m o (unparseable d m dev test) ≡ r
          → r.success ≡ true
          → Answered backstory ctx s r)
  answers backstory ctx none none dev test s t u r k l e h = cc
  answers backstory ctx none (some v) dev test s t u r k l e h =
      let reviewer = run_reviewer d m backstory ctx in
      inr
        (t, k, run_reviewer-Gives backstory ctx t u r (subst (λ x. Runs reviewer t (some x) u) e l))
  answers backstory ctx (some v) none dev test s t u r k l e h =
      let f = (pure-Runs (some v) none t u l).0 in cc
  answers backstory ctx (some v) (some w) dev test s t u r k l e h =
      let f = (pure-Runs (some v) (some w) t u l).0 in
      inl (
        run_reviewer-Gives backstory ctx s t r
          (subst (λ x. Runs (run_reviewer d m backstory ctx) s x t) (f ∙ ap some e) k))

  pub review-Signed :
      (dev test : SdkResult) (ci : SandboxRun) (s t : State) (r : MilestoneBuildResult)
      → Runs (review d m dev test ci) s r t
      → r.success ≡ true
      → Signed s (review_context d m dev test ci) r
  unfolding review on_world
  review-Signed dev test ci s t r k approves =
      let (notes, u1, k1, k2) = bind-Runs _ _ s r t k in
      let (first, u2, k3, k4) = bind-Runs _ _ u1 r t k2 in
      let (o, u3, k5, k6) = bind-Runs _ _ u2 r t k4 in
      let e = (pure-Runs _ r u3 t k6).0 in
      let backstory =
        d.sdk.render d.reviewer_template (format_notes d.sdk.prices.characters notes) in
      let ctx = review_context d m dev test ci in
      record {
        backstory = backstory;
        answered =
            subst (λ u. Answered backstory ctx u r) (sym (ap (λ p. p.1) k1))
              (answers backstory ctx first o dev test u1 u2 u3 r k3 k5 e approves);
      }
