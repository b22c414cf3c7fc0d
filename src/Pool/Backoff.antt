-- ===== src/Pool/Backoff.antt =====
-- What a crash of a tick does to the project and to the pool.
use ai_dev_swarm.Common.{
  ℕ, zero, suc, ◌+◌, ◌-◌, ◌*◌, ◌^◌, ◌≤◌, ◌<◌, min, ltb, ◌≡◌, refl, ◌∙◌, ap, ◌≢◌, true, false, ◌&&◌,
  ◌||◌, some, ◌⊎◌, arith,
}
use ai_dev_swarm.Schemas.Project.{Project, ProjectState, Detail}
use ai_dev_swarm.Schemas.Transitions.{legal_project}
use ai_dev_swarm.Schemas.Exceptions.{Exception, Result, ok, raise}
use ai_dev_swarm.Store.State.{State}
use ai_dev_swarm.Store.Projects
use ai_dev_swarm.Store.Projects.{row}
use ai_dev_swarm.Store.Projects.Rows.{
  state_at, state_of, SameStates, set_status_detail-SameStates, update_state_lem,
  update_state-others,
}
use ai_dev_swarm.Pool.{
  ErrorText, ProjectPool, in_claimed, backoff, skipped, handle_crash, back_off, give_up,
  clear_transient, is_transient_error, streak, safe_status, after_block, max_transient_fails,
}

power_pos : (n : ℕ) → 1 ≤ 2 ^ n
power_pos zero = omega arith
power_pos (suc n) = omega (arith, power_pos n)

capped :
    (x y : ℕ)
    → 30 ≤ x
    → y ≡ x * 2
    → (30 ≤ min 900 x)
      × (min 900 x ≤ 900)
      × (min 900 x ≤ min 900 y)
      × ((min 900 y ≡ min 900 x * 2) ⊎ (min 900 y ≡ 900))
capped x y h e = (ground arith, ground arith, ground arith, ground arith)

backoff-suc : (n : ℕ) → backoff (suc n) ≡ min 900 (30 * 2 ^ n)
unfolding backoff
backoff-suc n = let n' : suc n - 1 ≡ n = omega arith in ap (λ k. min 900 (30 * 2 ^ k)) n'

-- The waits: the first is 30 seconds, none is under 30 seconds or over 15 minutes, none is shorter
-- than the one before, and each is the double of the one before or 15 minutes.
pub backoff_bounds :
    (n : ℕ)
    → (backoff 1 ≡ 30)
      × (30 ≤ backoff (suc n))
      × (backoff (suc n) ≤ 900)
      × (backoff (suc n) ≤ backoff (suc (suc n)))
      × ((backoff (suc (suc n)) ≡ backoff (suc n) * 2) ⊎ (backoff (suc (suc n)) ≡ 900))
backoff_bounds n =
    let b = capped (30 * 2 ^ n) (30 * 2 ^ suc n) (omega (arith, power_pos n)) (omega arith) in
    (
      backoff-suc 0,
      rw (backoff-suc n) b.0,
      rw (backoff-suc n) b.1,
      rw (backoff-suc n, backoff-suc (suc n)) b.2,
      rw (backoff-suc n, backoff-suc (suc n)) b.3,
    )

safe_status-SameStates :
    (i : ℕ) (detail : Detail) (s : State) → SameStates s (safe_status i detail s)
unfolding safe_status
safe_status-SameStates i detail s = (set_status_detail-SameStates i (some detail)).at s

-- A tick of project `p` that crashes with a transient error, for the n-th time in a row and fewer
-- than five, changes no project's state; the pool counts the failure and skips the project for exactly
-- `backoff n` seconds: it skips it before they have passed, and after that only while it is claimed;
-- what is claimed and the cooldowns of the others are as before.
pub transient_crash :
    (et : ErrorText) (now : ℕ) (p : Project) (exc : Exception) (pool : ProjectPool) (s : State)
    → is_transient_error et exc ≡ true
    → streak p pool < max_transient_fails
    → SameStates s (handle_crash et now p exc pool s).1
      × ((handle_crash et now p exc pool s).0.claimed ≡ pool.claimed)
      × (streak p (handle_crash et now p exc pool s).0 ≡ streak p pool + 1)
      × ((later : ℕ)
          → skipped later (handle_crash et now p exc pool s).0 p
            ≡ (in_claimed p.id pool.claimed || ltb later (now + backoff (streak p pool))))
      × ((q : Project)
          → q.id ≢ p.id
          → (later : ℕ)
          → skipped later (handle_crash et now p exc pool s).0 q ≡ skipped later pool q)
unfolding handle_crash back_off
transient_crash et now p exc pool s t h =
    let early : (is_transient_error et exc && ltb (streak p pool) max_transient_fails) ≡ true =
      ground arith in
    rw early (
      safe_status-SameStates p.id _ s,
      refl,
      ground arith,
      λ later. ground arith,
      λ q ne later. ground arith,
    )

after_block-SameStates :
    (r : Result Project) (i : ℕ) (detail : Detail) (s : State)
    → SameStates s (after_block r i detail s)
after_block-SameStates (ok p) i detail s = safe_status-SameStates i detail s
after_block-SameStates (raise exc) i detail s = λ j. refl

give_up-blocks :
    (et : ErrorText) (p q : Project) (exc : Exception) (s : State)
    → legal_project p.state ProjectState.blocked ≡ true
    → row p.id s ≡ some q
    → (i : ℕ)
    → state_at i (give_up et p exc s)
      ≡ state_at i (Projects.update_state p.id ProjectState.blocked s).1
unfolding give_up
give_up-blocks et p q exc s legal e = rw legal (
    after_block-SameStates (Projects.update_state p.id ProjectState.blocked s).0 p.id _
      (Projects.update_state p.id ProjectState.blocked s).1)

-- The other crashes of a tick on a stored project whose state may be blocked: those with another
-- error, and the fifth transient one in a row. The project is blocked, no other project changes its
-- state, and the pool forgets the failures.
pub final_crash :
    (et : ErrorText) (now : ℕ) (p q : Project) (exc : Exception) (pool : ProjectPool) (s : State)
    → (is_transient_error et exc ≡ false) ⊎ (max_transient_fails ≤ streak p pool)
    → legal_project p.state ProjectState.blocked ≡ true
    → row p.id s ≡ some q
    → (state_at p.id (handle_crash et now p exc pool s).1 ≡ some ProjectState.blocked)
      × ((i : ℕ) → i ≢ p.id → state_at i (handle_crash et now p exc pool s).1 ≡ state_at i s)
      × (streak p (handle_crash et now p exc pool s).0 ≡ 1)
unfolding handle_crash clear_transient
final_crash et now p q exc pool s late legal e =
    let final : (is_transient_error et exc && ltb (streak p pool) max_transient_fails) ≡ false =
      ground arith in
    rw final (
      give_up-blocks et p q exc s legal e p.id ∙ blocked_state,
      (λ i ne.
          give_up-blocks et p q exc s legal e i
          ∙ ap state_of (update_state-others i p.id ProjectState.blocked s ne)),
      ground arith,
    )
  where
    blocked_state :
        state_at p.id (Projects.update_state p.id ProjectState.blocked s).1
        ≡ some ProjectState.blocked
    blocked_state = ap state_of (update_state_lem p.id ProjectState.blocked s q e)
