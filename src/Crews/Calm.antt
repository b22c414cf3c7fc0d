-- ===== src/Crews/Calm.antt =====
-- The crews that must not break a tick return, whatever their language model does.
use ai_dev_swarm.Common.{
  ℕ, zero, suc, ◌≤◌, ◌≡◌, refl, List, [], ◌∷◌, Option, none, some, Text, length, take, arith, ◌⊎◌,
}
use ai_dev_swarm.Slugs.{strip_spaces}
use ai_dev_swarm.Schemas.Exceptions.{Exception, Result, ok, raise}
use ai_dev_swarm.Schemas.Project.{Project}
use ai_dev_swarm.Schemas.Milestone.{Milestone}
use ai_dev_swarm.Schemas.Replanner.{ReplannerAction, noop}
use ai_dev_swarm.Store.State.{State, World, MilestoneSession}
use ai_dev_swarm.Store.Action.{Action, ◌>>=◌, pure, run_world, catch, handle, and_then}
use ai_dev_swarm.Crews.Replanning
use ai_dev_swarm.Crews.Replanning.{ReplanningDeps, guarded_kickoff}
use ai_dev_swarm.Crews.Diagnostician.{
  DiagnosticianDeps, steer, on_remediation, diagnose, max_remediation_chars,
}

-- `m` returns, in every state, a value that is as `P` says.
record Total {A : Type 0} (P : A → Type 0) (m : Action A) : Type 0 where
  at : (s : State) → (a : A) × ((m s).0 ≡ ok a) × P a

abbrev Any : {A : Type 0} → A → Type 0
Any a = Unit

pure-Total : {A : Type 0} {P : A → Type 0} (a : A) → P a → Total P (pure a)
unfolding pure
pure-Total a h = record { at = λ s. (a, refl, h) }

run_world-Total : (f : World → World) → Total Any (run_world f)
unfolding run_world
run_world-Total f = record { at = λ s. (tt, refl, tt) }

module _ {A B : Type 0} {P : B → Type 0} where
  and_then-Total :
      (r : Result A) (f : A → Action B) (s : State) (a : A)
      → r ≡ ok a
      → Total P (f a)
      → (b : B) × ((and_then r f s).0 ≡ ok b) × P b
  and_then-Total r f s a e h = rw e (h.at s)

  bind-Total :
      {Q : A → Type 0} (m : Action A) (f : A → Action B)
      → Total Q m
      → ((a : A) → Q a → Total P (f a))
      → Total P (m >>= f)
  unfolding ◌>>=◌
  bind-Total m f hm hf = record {
    at = λ s. let (a, e, q) = hm.at s in and_then-Total (m s).0 f (m s).1 a e (hf a q);
  }

module _ {A : Type 0} {P : A → Type 0} where
  -- A handler that returns makes any call return.
  handle-Total :
      (r : Result A) (h : Exception → Action A) (s : State)
      → ((a : A) → P a)
      → ((e : Exception) → Total P (h e))
      → (a : A) × ((handle r h s).0 ≡ ok a) × P a
  handle-Total (ok a) h s k t = (a, refl, k a)
  handle-Total (raise e) h s k t = (t e).at s

  catch-Total :
      (m : Action A) (h : Exception → Action A)
      → ((a : A) → P a)
      → ((e : Exception) → Total P (h e))
      → Total P (catch m h)
  unfolding catch
  catch-Total m h k t = record { at = λ s. handle-Total (m s).0 h (m s).1 k t }

module _ {J : Type 0} (d : ReplanningDeps J) (project : Project) (next : Milestone)
    (recent : List MilestoneSession) where
  -- The action is none at all, or one that the validation answered.
  abbrev pub Answer : ReplannerAction → Type 0
  Answer action = (action ≡ noop) ⊎ ((j : J) × (d.validate_python j ≡ ok action))

-- A remediation is short.
abbrev pub Short : Option Text → Type 0
Short none = Unit
Short (some t) = length t ≤ max_remediation_chars

length-take_le : (n : ℕ) (t : Text) → length (take n t) ≤ n
length-take_le zero t = omega arith
length-take_le (suc n) [] = omega arith
length-take_le (suc n) (c ∷ t) = omega (arith, length-take_le n t)

module _ (d : DiagnosticianDeps) (project : Project) (m : Milestone) where
  steer-Total : (t : Text) → length t ≤ max_remediation_chars → Total Short (steer d project m t)
  steer-Total [] h = pure-Total none tt
  steer-Total (c ∷ t) h =
      bind-Total _ _ (catch-Total _ _ (λ _. tt) (λ e. pure-Total tt tt))
        (λ _ _. bind-Total _ _ (run_world-Total _) (λ _ _. pure-Total (some (c ∷ t)) h))

  on_remediation-Total : (o : Option Text) → Total Short (on_remediation d project m o)
  on_remediation-Total none = pure-Total none tt
  on_remediation-Total (some t) =
      steer-Total _ (length-take_le max_remediation_chars (strip_spaces d.prices.characters t))

-- The diagnostician always returns, whatever its language model raises or answers, and what it
-- returns is no remediation, or one of at most 600 characters.
pub diagnose-Short :
    (d : DiagnosticianDeps) (project : Project) (m : Milestone) (failure_reason : Text) (s : State)
    → (o : Option Text) × ((diagnose d project m failure_reason s).0 ≡ ok o) × Short o
unfolding diagnose
diagnose-Short d project m failure_reason s =
    (bind-Total _ _ (catch-Total _ _ (λ _. tt) (λ e. pure-Total none tt))
        (λ o _. on_remediation-Total d project m o)).at
      s
