-- ===== src/Store/Milestones/Finished.antt =====
-- What the methods of `PsycopgMilestoneRepo` leave of a milestone that is done.
use ai_dev_swarm.Common.{
  ℕ, ◌==◌, ◌≡◌, refl, subst, Bool, true, false, List, [], ◌∷◌, Option, none, some, find,
  update_where, Text, if◌then◌else◌, arith, Bool-cases, ◌⊎◌, inl, inr, ==→eq,
}
use ai_dev_swarm.Schemas.Project.{MilestoneState}
use ai_dev_swarm.Schemas.Milestone.{Milestone}
use ai_dev_swarm.Schemas.Transitions.{legal_milestone, assert_legal_milestone}
use ai_dev_swarm.Store.State.{State}
use ai_dev_swarm.Store.Action.{Action, ◌>>=◌, ◌>>◌, gets, lift, modify}
use ai_dev_swarm.Store.Action.Keeps.{Rel, Keeps}
use ai_dev_swarm.Store.Milestones.{
  has_id, row, update_rows, write_row, update_state, record_attempt, requeue_stale_building,
  reset_retry_count, stale, exhausted, lock_current_state,
}

-- The outcome of a milestone: its state, commit and retries.
abbrev pub outcome : Option Milestone → Option (MilestoneState × Option Text × ℕ)
outcome none = none
outcome (some m) = some (m.state, m.commit_hash, m.retry_count)

-- Every milestone that is done stays as it is: done, with the same commit and the same retries.
abbrev pub finished : Rel
finished = record {
  holds = λ s t.
      (j : ℕ) (commit : Option Text) (retries : ℕ)
      → outcome (row j s) ≡ some (MilestoneState.done, commit, retries)
      → outcome (row j t) ≡ some (MilestoneState.done, commit, retries);
  same = λ s j c r e. e;
  chain = λ s t u h k j c r e. k j c r (h j c r e);
  world = λ s w j c r e. e;
  outbox = λ s o j c r e. e;
}

-- An update that passes over the rows that are done.
update-finished :
    (p : Milestone → Bool) (f : Milestone → Milestone) (ms : List Milestone)
    → ((m : Milestone) → (f m).id ≡ m.id)
    → ((m : Milestone) → p m ≡ true → m.state ≡ MilestoneState.done → ⊥)
    → (j : ℕ) (commit : Option Text) (retries : ℕ)
    → outcome (find (has_id j) ms) ≡ some (MilestoneState.done, commit, retries)
    → outcome (find (has_id j) (update_where p f ms)) ≡ some (MilestoneState.done, commit, retries)
update-finished p f [] hf hp j c r e = cc
update-finished p f (m ∷ ms) hf hp j c r e = elim (Bool-cases (m.id == j)) [
  | inl h ↦
      let done : m.state ≡ MilestoneState.done = ground arith in
      let skip : p m ≡ false = skipped (Bool-cases (p m)) done in ground arith
  | inr h ↦ ground (arith, hf m, update-finished p f ms hf hp j c r)
]
  where
    skipped : (p m ≡ true) ⊎ (p m ≡ false) → m.state ≡ MilestoneState.done → p m ≡ false
    skipped (inl h) d = absurd (hp m h d)
    skipped (inr h) d = h

-- An update of the rows with another id.
find-others :
    (i j : ℕ) (f : Milestone → Milestone) (ms : List Milestone)
    → ((m : Milestone) → (f m).id ≡ m.id)
    → (j == i) ≡ false
    → find (has_id j) (update_where (has_id i) f ms) ≡ find (has_id j) ms
find-others i j f [] hf ne = refl
find-others i j f (m ∷ ms) hf ne = ground (arith, hf m, find-others i j f ms hf ne)

-- A guarded write of a row: the guard refuses the rows that are done.
write_row-finished :
    (i : ℕ) (f : Milestone → Milestone) (s : State) (m : Milestone) (st : MilestoneState)
    → ((x : Milestone) → (f x).id ≡ x.id)
    → row i s ≡ some m
    → legal_milestone m.state st ≡ true
    → finished.holds s (write_row i f s).1
unfolding write_row ◌>>=◌
write_row-finished i f s m st hf here legal j c r e = elim (Bool-cases (j == i)) [
  | inl h ↦
      let there : row j s ≡ some m = rw (==→eq j i h) here in
      let done : m.state ≡ MilestoneState.done = ground arith in
      let none_legal : legal_milestone MilestoneState.done st ≡ true =
        subst (λ x. legal_milestone x st ≡ true) done legal in
      cc
  | inr h ↦ rw (find-others i j f s.milestones hf h) e
]

-- `update_state` and `record_attempt` behind their guard.
guarded-finished :
    (i : ℕ) (f : ℕ → Milestone → Milestone) (st : MilestoneState)
    → ((now : ℕ) (x : Milestone) → (f now x).id ≡ x.id)
    → Keeps finished (do
      current ← lock_current_state i
      lift (assert_legal_milestone current st)
      now ← gets (λ s. s.now)
      write_row i (f now))
unfolding ◌>>=◌ lock_current_state assert_legal_milestone
guarded-finished i f st hf = record { at = λ s. at s (row i s) refl }
  where
    m : Action Milestone
    m = do
      current ← lock_current_state i
      lift (assert_legal_milestone current st)
      now ← gets (λ s. s.now)
      write_row i (f now)

    at : (s : State) (o : Option Milestone) → row i s ≡ o → finished.holds s (m s).1
    at s none r = rw r (λ j c n e. e)
    at s (some x) r = elim (Bool-cases (legal_milestone x.state st)) [
      | inl b ↦ rw (r, b) (write_row-finished i (f s.now) s x st (hf s.now) r b)
      | inr b ↦ rw (r, b) (λ j c n e. e)
    ]

modify-finished :
    (p : Milestone → Bool) (f : Milestone → Milestone)
    → ((m : Milestone) → (f m).id ≡ m.id)
    → ((m : Milestone) → p m ≡ true → m.state ≡ MilestoneState.done → ⊥)
    → Keeps finished (modify (update_rows p f))
unfolding modify
modify-finished p f hf hp = record {
  at = λ s j c r e. update-finished p f s.milestones hf hp j c r e;
}

-- Whatever the arguments, a state update, the record of an attempt, the requeue after a restart and
-- the reset of the retries leave every finished milestone as it is: done, with its commit and its
-- retries.
pub finished_stays :
    (i : ℕ) (st : MilestoneState) (success : Bool) (commit : Option Text)
    → Keeps finished (update_state i st)
      × Keeps finished (record_attempt i success commit)
      × Keeps finished requeue_stale_building
      × Keeps finished (reset_retry_count i)
unfolding update_state record_attempt requeue_stale_building reset_retry_count ◌>>=◌ modify
finished_stays i st success commit = (
  guarded-finished i (λ now m. record m { state = st; updated_at = now }) st (λ now x. refl),
  guarded-finished i _ (if success then MilestoneState.done else MilestoneState.failed)
      (λ now x. refl),
  record {
    at = λ s.
        (modify-finished stale
            (λ m. record m { state = MilestoneState.pending; updated_at = s.now }) (λ m. refl)
            (λ m h d. ground arith)).at
          s;
  },
  record {
    at = λ s.
        (modify-finished (exhausted i) (λ m. record m { retry_count = 0; updated_at = s.now })
            (λ m. refl) (λ m h d. ground arith)).at
          s;
  },
)
