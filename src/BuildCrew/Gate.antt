-- ===== src/BuildCrew/Gate.antt =====
-- That the crew approves a milestone only on evidence.
use ai_dev_swarm.Common.{◌≡◌, refl, sym, subst, true, false, none, some, text, inl, inr}
use ai_dev_swarm.Schemas.Exceptions.{ok}
use ai_dev_swarm.Schemas.Milestone.{Milestone, MilestoneBuildResult}
use ai_dev_swarm.Store.State.{State}
use ai_dev_swarm.Store.Action.{pure}
use ai_dev_swarm.Store.Action.Runs.{Runs, to_Runs, bind-Runs, pure-Runs, if-Runs}
use ai_dev_swarm.Sandbox.{SandboxRun}
use ai_dev_swarm.Sdk.Invocation.{SdkResult, tester}
use ai_dev_swarm.Sdk.Session.{run_sync}
use ai_dev_swarm.BuildCrew.{
  BuildDeps, emit, failure_from_sdk, failure_from_ci, review_context, review, on_ci_passed,
  after_tester, after_developer, run,
}
use ai_dev_swarm.BuildCrew.Evidence.{
  Allowed, Passed, Signed, Approved, ensure_budget-Allowed, gate-Passed, review-Signed,
}

module _ (d : BuildDeps) (m : Milestone) where
  module _ (r : MilestoneBuildResult) (approves : r.success ≡ true) where
    -- An approval is not a result that fails.
    not_failed :
        (x : MilestoneBuildResult) (s t : State) → x.success ≡ false → ¬ (Runs (pure x) s r t)
    not_failed x s t f k = let e = (pure-Runs x r s t k).0 in cc

    on_ci_passed-Runs :
        (dev test : SdkResult) (ci : SandboxRun) (s t : State)
        → Runs (on_ci_passed d m dev test ci) s r t
        → (announced : State) × Runs
            (emit d m (text "ci_passed") (text "CI gate passed"))
            s
            tt
            announced
          × Allowed d m announced
          × Signed d m announced (review_context d m dev test ci) r
    on_ci_passed-Runs dev test ci s t k =
        let (_, s1, k1, l1) = bind-Runs _ _ s r t k in
        let (_, s2, k2, l2) = bind-Runs _ _ s1 r t l1 in
        let (allowed, same) = ensure_budget-Allowed d m s1 s2 k2 in
        let (verdict, s3, k3, l3) = bind-Runs _ _ s2 r t l2 in
        let (_, s4, _, l4) = bind-Runs _ _ s3 r t l3 in
        let (_, s5, _, l5) = bind-Runs _ _ s4 r t l4 in
        let e = (pure-Runs verdict r s5 t l5).0 in
        let reviewed : Runs (review d m dev test ci) s1 r s3 =
          subst (λ u. Runs (review d m dev test ci) u r s3) (sym same)
            (subst (λ v. Runs (review d m dev test ci) s2 v s3) e k3) in
        (s1, k1, allowed, review-Signed d m dev test ci s1 s3 r reviewed approves)

    after_tester-Runs :
        (dev test : SdkResult) (s t : State)
        → Runs (after_tester d m dev test) s r t
        → (fixed : SdkResult) × (ci : SandboxRun) × (gated : State) × Passed d m dev s gated fixed
            ci
          × Runs (on_ci_passed d m fixed test ci) gated r t
    unfolding failure_from_ci
    after_tester-Runs dev test s t k =
        let (first, s1, k1, l1) = bind-Runs _ _ s r t k in
        let ((fixed, ci), s2, k2, l2) = bind-Runs _ _ s1 r t l1 in
        elim (if-Runs ci.passed _ _ s2 r t l2) [
          | inl (p, l3) ↦ (fixed, ci, s2, gate-Passed d m dev fixed first ci s s1 s2 k1 k2 p, l3)
          | inr (_, l3) ↦
              let (_, s3, _, l4) = bind-Runs _ _ s2 r t l3 in absurd (not_failed _ s3 t refl l4)
        ]

    -- The developer's run, from where the tester's starts: it succeeded, and the caps allowed that.
    after_developer-Runs :
        (dev : SdkResult) (s t : State)
        → Runs (after_developer d m dev) s r t
        → Allowed d m s
          × (test : SdkResult) × (tested : State) × Runs
              (run_sync d.sdk tester m (some d.sdk.settings.tester_max_turns) none none)
              s
              test
              tested
          × (test.success ≡ true)
          × Runs (after_tester d m dev test) tested r t
    unfolding failure_from_sdk
    after_developer-Runs dev s t k =
        let (_, s1, k1, l1) = bind-Runs _ _ s r t k in
        let (allowed, same) = ensure_budget-Allowed d m s s1 k1 in
        let (test, s2, k2, l2) = bind-Runs _ _ s1 r t l1 in
        let tester_run = run_sync d.sdk tester m (some d.sdk.settings.tester_max_turns) none none in
        elim (if-Runs test.success _ _ s2 r t l2) [
          | inl (p, l3) ↦
              (allowed, test, s2, subst (λ u. Runs tester_run u test s2) (sym same) k2, p, l3)
          | inr (_, l3) ↦ absurd (not_failed _ s2 t refl l3)
        ]

    run-Runs : (s t : State) → Runs (run d m) s r t → Approved d m s r
    unfolding run failure_from_sdk
    run-Runs s t k =
        let (_, s1, k1, l1) = bind-Runs _ _ s r t k in
        let (dev, s2, k2, l2) = bind-Runs _ _ s1 r t l1 in
        elim (if-Runs dev.success _ _ s2 r t l2) [
          | inl (dev_success, l3) ↦
              let (allowed, test, s3, k3, p, l4) = after_developer-Runs dev s2 t l3 in
              let (fixed, ci, s4, passed, l5) = after_tester-Runs dev test s3 t l4 in
              let (s5, k5, allowed', signed) = on_ci_passed-Runs fixed test ci s4 t l5 in
              record {
                dev = dev;
                fixed = fixed;
                test = test;
                ci = ci;
                started = s1;
                built = s2;
                tested = s3;
                gated = s4;
                announced = s5;
                start = k1;
                develops = k2;
                dev_success = dev_success;
                allowed_tester = allowed;
                tests = k3;
                test_success = p;
                passes = passed;
                announces = k5;
                allowed_reviewer = allowed';
                signs = signed;
              }
          | inr (_, l3) ↦ absurd (not_failed _ s2 t refl l3)
        ]

-- A milestone is approved only by a chain of calls, each from the state where the one before it
-- ended: the developer's run succeeded, the caps allowed a call for the milestone in the state in
-- which the tester began, the tester's run succeeded, then a run of the CI gate passed, at once
-- or after a repair, by a run of the developer's that succeeded, of one that had not, the caps
-- allowed a call in the state in which the reviewer began, and the reviewer, asked about that
-- very CI run, gave the approving verdict, at the first time or after an answer that could not be
-- read.
pub run-Approved :
    (d : BuildDeps) (m : Milestone) (s : State) (r : MilestoneBuildResult)
    → (run d m s).0 ≡ ok r
    → r.success ≡ true
    → Approved d m s r
run-Approved d m s r e approves = run-Runs d m r approves s _ (to_Runs (run d m) s r e)
