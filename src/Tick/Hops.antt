-- ===== src/Tick/Hops.antt =====
-- What one tick may do to the states of the projects.
use ai_dev_swarm.Common.{
  ℕ, ◌≡◌, ◌≢◌, refl, ◌∙◌, ap, ◌⊎◌, inl, inr, Bool, true, false, Option, none, some, if◌then◌else◌,
}
use ai_dev_swarm.Schemas.Project.{Project, ProjectState, Detail}
use ai_dev_swarm.Schemas.Transitions.{legal_project, assert_legal_project}
use ai_dev_swarm.Schemas.Exceptions.{Exception, Result, ok, raise, raise_unless}
use ai_dev_swarm.Store.State.{State}
use ai_dev_swarm.Store.Action.{Action, ◌>>=◌, lift, and_then}
use ai_dev_swarm.Store.Action.Keeps.{
  Keeps, Keeps-pure, Keeps-and_then, Keeps-run_world, keeps_rules,
}
use ai_dev_swarm.Store.Action.Yields.{Yields, Yields-pure, Yields-if, Yields-catch, Yields-bind}
use ai_dev_swarm.Store.Projects
use ai_dev_swarm.Store.Projects.{row}
use ai_dev_swarm.Store.Projects.Rows.{
  state_at, state_of, same_states, SameStates, update_state_lem, update_state-others,
  set_status_detail-SameStates, set_github_repo-SameStates,
}
use ai_dev_swarm.Store.Milestones.Frame.{milestone_rules}
use ai_dev_swarm.Tick.Tools.{TickDeps}
use ai_dev_swarm.Tick.Moves.{move, block, make_repo, ensure_repo, push}

-- A project in state `st` is afterwards still there, in `st` or in a legal successor of `st`.
abbrev pub Hop : ProjectState → Option ProjectState → Type 0
Hop st none = ⊥
Hop st (some after) = (st ≡ after) ⊎ (legal_project st after ≡ true)

-- The states of all projects but `i` are as before, and `i` has made at most one hop.
pub record OneHop (i : ℕ) (st : ProjectState) (s t : State) : Type 0 where
  pub others : (j : ℕ) → j ≢ i → state_at j t ≡ state_at j s
  pub hop : Hop st (state_at i t)

-- Where project `i` is in state `st`, the call `m` makes it hop at most once.
pub record Advances {A : Type 0} (i : ℕ) (st : ProjectState) (m : Action A) : Type 0 where
  pub from : (s : State) → state_at i s ≡ some st → OneHop i st s (m s).1

pub SameStates→OneHop :
    {i : ℕ} {st : ProjectState} (s t : State)
    → state_at i s ≡ some st
    → SameStates s t
    → OneHop i st s t
SameStates→OneHop {i} s t e h = record { others = λ j _. h j; hop = rw (h i ∙ e) (inl refl) }

module _ {A : Type 0} {i : ℕ} {st : ProjectState} where
  pub Advances-quiet : (m : Action A) → Keeps same_states m → Advances i st m
  Advances-quiet m km = record { from = λ s e. SameStates→OneHop s (m s).1 e (km.at s) }

  pub Advances-if :
      (b : Bool) (m n : Action A)
      → Advances i st m
      → Advances i st n
      → Advances i st (if b then m else n)
  Advances-if true m n am an = am
  Advances-if false m n am an = an

module _ {A B : Type 0} {i : ℕ} {st : ProjectState} where
  and_then-Advances :
      (r : Result A) (f : A → Action B)
      → ((a : A) → Advances i st (f a))
      → Advances i st (and_then r f)
  and_then-Advances (ok a) f af = af a
  and_then-Advances (raise e) f af = record { from = λ s h. SameStates→OneHop s s h (λ j. refl) }

  -- First calls that leave the states alone, then one that may hop.
  pub Advances-bind :
      (m : Action A) (f : A → Action B)
      → Keeps same_states m
      → ((a : A) → Advances i st (f a))
      → Advances i st (m >>= f)
  unfolding ◌>>=◌
  Advances-bind m f km af = record {
    from = λ s e.
        let here = (km.at s i) ∙ e in
        let after = (and_then-Advances (m s).0 f af).from (m s).1 here in
        record { others = λ j ne. after.others j ne ∙ km.at s j; hop = after.hop };
  }

  -- First a call that may hop, then some that leave the states alone.
  pub Advances-then :
      (m : Action A) (f : A → Action B)
      → Advances i st m
      → ((a : A) → Keeps same_states (f a))
      → Advances i st (m >>= f)
  unfolding ◌>>=◌
  Advances-then m f am kf = record {
    from = λ s e.
        let after = am.from s e in
        let rest = Keeps-and_then {R = same_states} (m s).0 f kf (m s).1 in
        record { others = λ j ne. rest j ∙ after.others j ne; hop = rw (rest i) after.hop };
  }

-- A guard before a call.
Advances-guard :
    {B : Type 0} {i : ℕ} {st : ProjectState} (b : Bool) (e : Exception) (f : Unit {0} → Action B)
    → (b ≡ true → Advances i st (f tt))
    → Advances i st (lift (raise_unless b e) >>= f)
unfolding ◌>>=◌
Advances-guard true e f af = af refl
Advances-guard false e f af = record { from = λ s h. SameStates→OneHop s s h (λ j. refl) }

update_state-Advances :
    (i : ℕ) (st to : ProjectState)
    → legal_project st to ≡ true
    → Advances i st (Projects.update_state i to)
update_state-Advances i st to legal = record {
  from = λ s e. record {
    others = λ j ne. ap state_of (update_state-others j i to s ne);
    hop = landed s (row i s) refl e;
  };
}
  where
    landed :
        (s : State) (o : Option Project)
        → row i s ≡ o
        → state_of o ≡ some st
        → Hop st (state_at i (Projects.update_state i to s).1)
    landed s none e h = cc
    landed s (some p) e h = rw (update_state_lem i to s p e) (inr legal)

pub move-Advances :
    (d : TickDeps) (p : Project) (to : ProjectState) → Advances p.id p.state (move d p to)
unfolding move assert_legal_project
move-Advances d p to = Advances-guard (legal_project p.state to) _ _ λ legal.
    Advances-then (Projects.update_state p.id to) _ (update_state-Advances p.id p.state to legal)
      (λ updated. search keeps_rules)

pub ruleset hop_rules = (
  Advances-quiet, Advances-bind, Advances-if, keeps_rules, milestone_rules, move-Advances,
  set_status_detail-SameStates, set_github_repo-SameStates,
)

pub block-Advances :
    (d : TickDeps) (p : Project) (reason : Detail) → Advances p.id p.state (block d p reason)
unfolding block
block-Advances d p reason = search hop_rules

pub push-SameStates : (d : TickDeps) (p : Project) → Keeps same_states (push d p)
unfolding push
push-SameStates d p = search keeps_rules depth 8

make_repo-SameStates : (d : TickDeps) (p : Project) → Keeps same_states (make_repo d p)
unfolding make_repo
make_repo-SameStates d p = search (keeps_rules, set_github_repo-SameStates) depth 12

-- The id and the state of `p`.
abbrev pub SameProject : Project → Project → Type 0
SameProject p q = (q.id ≡ p.id) × (q.state ≡ p.state)

make_repo-Yields : (d : TickDeps) (p : Project) → Yields (SameProject p) (make_repo d p)
unfolding make_repo
make_repo-Yields d p = Yields-bind _ _ λ repo.
    Yields-bind _ _ λ _. Yields-bind _ _ λ _. Yields-bind _ _ λ _. Yields-pure _ (refl, refl)

-- `_ensure_repo` returns its project, or a copy that has another `github_repo`.
pub ensure_repo-Yields : (d : TickDeps) (p : Project) → Yields (SameProject p) (ensure_repo d p)
unfolding ensure_repo
ensure_repo-Yields d p =
    Yields-if _ _ _ (Yields-pure p (refl, refl))
      (Yields-catch _ _ (make_repo-Yields d p) (λ e. Yields-pure p (refl, refl)))

pub ensure_repo-SameStates : (d : TickDeps) (p : Project) → Keeps same_states (ensure_repo d p)
unfolding ensure_repo
ensure_repo-SameStates d p = search (keeps_rules, make_repo-SameStates) depth 8

module _ {A B : Type 0} {P : A → Type 0} {i : ℕ} {st : ProjectState} where
  and_then-yielded :
      (r : Result A) (f : A → Action B)
      → ((a : A) → r ≡ ok a → P a)
      → ((a : A) → P a → Advances i st (f a))
      → Advances i st (and_then r f)
  and_then-yielded (ok a) f yr af = af a (yr a refl)
  and_then-yielded (raise e) f yr af = record { from = λ s h. SameStates→OneHop s s h (λ j. refl) }

  -- As `Advances-bind`, where what the first call returns is known.
  pub Advances-bind-Yields :
      (m : Action A) (f : A → Action B)
      → Keeps same_states m
      → Yields P m
      → ((a : A) → P a → Advances i st (f a))
      → Advances i st (m >>= f)
  unfolding ◌>>=◌
  Advances-bind-Yields m f km ym af = record {
    from = λ s e.
        let here = (km.at s i) ∙ e in
        let after = (and_then-yielded (m s).0 f (ym.at s) af).from (m s).1 here in
        record { others = λ j ne. after.others j ne ∙ km.at s j; hop = after.hop };
  }
