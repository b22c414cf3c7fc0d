-- ===== src/Sdk/Aged.antt =====
-- Calls that leave the recorded sessions older than what is recorded next.
use ai_dev_swarm.Common.{ℕ, ◌≡◌, refl, Text, Bool-cases, inl, inr}
use ai_dev_swarm.Schemas.Exceptions.{Result, ok, raise}
use ai_dev_swarm.Store.State.{State, World}
use ai_dev_swarm.Store.Action.{Action, ◌>>=◌, pure, on_world, run_world, and_then}
use ai_dev_swarm.Store.Sessions.Latest.{Older}
use ai_dev_swarm.Steering.{pull_unconsumed, blank}

pub sessions-pull_unconsumed :
    (i : ℕ) (role : Text) (w : World) → (pull_unconsumed i role w).1.sessions ≡ w.sessions
unfolding pull_unconsumed
sessions-pull_unconsumed i role w = elim (Bool-cases (blank role)) [
  | inl e ↦ rw e refl
  | inr e ↦ rw e refl
]

-- A call that leaves the recorded sessions older than what is recorded next.
pub record Aged {A : Type 0} (n : Action A) : Type 0 where
  pub at : (s : State) → Older s → Older (n s).1

pub pure-Aged : {A : Type 0} (a : A) → Aged (pure a)
unfolding pure
pure-Aged a = record { at = λ s h. h }

pub on_world-Aged :
    {A : Type 0} (f : World → Result A × World)
    → ((w : World) → (f w).1.sessions ≡ w.sessions)
    → Aged (on_world f)
unfolding on_world
on_world-Aged f k = record { at = λ s h. rw (k s.world) h }

pub run_world-Aged :
    (f : World → World) → ((w : World) → (f w).sessions ≡ w.sessions) → Aged (run_world f)
unfolding run_world
run_world-Aged f k = record { at = λ s h. rw (k s.world) h }

and_then-Aged :
    {A B : Type 0} (r : Result A) (f : A → Action B) (s : State)
    → Older s
    → ((a : A) → Aged (f a))
    → Older (and_then r f s).1
and_then-Aged (ok a) f s h k = (k a).at s h
and_then-Aged (raise e) f s h k = h

pub bind-Aged :
    {A B : Type 0} (n : Action A) (f : A → Action B)
    → Aged n
    → ((a : A) → Aged (f a))
    → Aged (n >>= f)
unfolding ◌>>=◌
bind-Aged n f a k = record { at = λ s h. and_then-Aged (n s).0 f (n s).1 (a.at s h) k }
