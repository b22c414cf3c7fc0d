-- ===== src/Store/Milestones.antt =====
-- db/repositories.py, `PsycopgMilestoneRepo`. A method that inserts rows ends in a commit, where
-- the deferred constraint UNIQUE (project_id, ordinal) of docker/init.sql is checked.
pub mod Graph
pub mod Frame
pub mod Finished
pub mod Next
mod Tests
use ai_dev_swarm.Common.{
  ℕ, suc, ◌+◌, ◌-◌, ◌==◌, ltb, Bool, true, false, not, ◌&&◌, ◌||◌, List, [], ◌∷◌, Option, none,
  some, Text, text, length, find, select, any, update_where, sort_by, head?, if◌then◌else◌,
}
use ai_dev_swarm.Schemas.Project.{MilestoneState, milestone_state_eq}
use ai_dev_swarm.Schemas.Milestone.{Milestone, MilestoneSpec, AcceptanceCriterion}
use ai_dev_swarm.Schemas.Replanner.{Patch}
use ai_dev_swarm.Schemas.Transitions.{assert_legal_milestone}
use ai_dev_swarm.Schemas.Exceptions.{
  Result, ok, raise, milestone_not_found, unique_violation, value_error, validation_error,
  raise_unless,
}
use ai_dev_swarm.Store.State.{State}
use ai_dev_swarm.Store.Action.{Action, ◌>>=◌, ◌>>◌, pure, gets, lift, modify, or_raise, throw}

abbrev pub has_id : ℕ → Milestone → Bool
has_id i m = m.id == i

abbrev pub row : ℕ → State → Option Milestone
row i s = find (has_id i) s.milestones

abbrev pub update_rows : (Milestone → Bool) → (Milestone → Milestone) → State → State
update_rows p f s = record s { milestones = update_where p f s.milestones }

-- Two rows that break UNIQUE (project_id, ordinal).
abbrev pub clash : Milestone → Milestone → Bool
clash a b = a.project_id == b.project_id && a.ordinal == b.ordinal

unfoldable pub unique_ordinals : List Milestone → Bool
unique_ordinals [] = true
unique_ordinals (m ∷ ms) = not (any (clash m) ms) && unique_ordinals ms

-- The end of `with pool.connection()`: commit, or roll back.
abbrev pub settle : {A : Type 0} → Result A → State → State → Result A × State
settle (ok a) before after =
    if unique_ordinals after.milestones then (ok a, after) else (raise unique_violation, before)
settle (raise e) before after = (raise e, before)

abbrev pub transaction : {A : Type 0} → Action A → Action A
transaction m s = let (r, s') = m s in settle r s s'

-- `INSERT INTO milestones (project_id, ordinal, title, spec, state) ... RETURNING *`
abbrev pub new_row : ℕ → ℕ → MilestoneSpec → State → Milestone
new_row project_id ordinal spec s = record {
  id = s.next_id;
  project_id = project_id;
  ordinal = ordinal;
  title = spec.title;
  spec = spec;
  state = MilestoneState.pending;
  retry_count = 0;
  commit_hash = none;
  created_at = s.now;
  updated_at = s.now;
}

unfoldable pub insert_row : ℕ → ℕ → MilestoneSpec → Action Milestone
insert_row project_id ordinal spec s =
    let m = new_row project_id ordinal spec s in
    (ok m, record s { milestones = m ∷ s.milestones; next_id = s.next_id + 1 })

unfoldable pub insert_rows : ℕ → ℕ → List MilestoneSpec → Action (List Milestone)
insert_rows project_id ordinal [] = pure []
insert_rows project_id ordinal (spec ∷ specs) = do
  m ← insert_row project_id ordinal spec
  ms ← insert_rows project_id (ordinal + 1) specs
  pure (m ∷ ms)

unfoldable pub create_many : ℕ → List MilestoneSpec → Action (List Milestone)
create_many project_id specs = transaction (insert_rows project_id 0 specs)

abbrev pub rows_of : ℕ → State → List Milestone
rows_of project_id s =
    sort_by (λ m. m.ordinal) (select (λ m. m.project_id == project_id) s.milestones)

unfoldable pub list_for_project : ℕ → Action (List Milestone)
list_for_project project_id = gets (rows_of project_id)

-- `state IN ('pending', 'failed')`
abbrev pub to_do : MilestoneState → Bool
to_do MilestoneState.pending = true
to_do MilestoneState.failed = true
to_do _ = false

abbrev pub next_row : ℕ → State → Option Milestone
next_row project_id s = head? (
    sort_by (λ m. m.ordinal)
      (select (λ m. m.project_id == project_id && to_do m.state) s.milestones))

unfoldable pub next_pending : ℕ → Action (Option Milestone)
next_pending project_id = gets (next_row project_id)

-- `_lock_current_state`
unfoldable pub lock_current_state : ℕ → Action MilestoneState
lock_current_state i = do
  m ← gets (row i)
  locked ← lift (or_raise m (milestone_not_found i))
  pure locked.state

-- The UPDATE of a locked row, and its RETURNING *.
unfoldable pub write_row : ℕ → (Milestone → Milestone) → Action Milestone
write_row i f = do
  modify (update_rows (has_id i) f)
  m ← gets (row i)
  lift (or_raise m (milestone_not_found i))

unfoldable pub update_state : ℕ → MilestoneState → Action Milestone
update_state i new_state = do
  current ← lock_current_state i
  lift (assert_legal_milestone current new_state)
  now ← gets (λ s. s.now)
  write_row i (λ m. record m { state = new_state; updated_at = now })

-- `COALESCE(new, old)`
abbrev pub coalesce {ℓ} : {A : Type ℓ} → Option A → Option A → Option A
coalesce none old = old
coalesce (some a) old = some a

unfoldable pub record_attempt : ℕ → Bool → Option Text → Action Milestone
record_attempt i success commit_hash = do
  let new_state = if success then MilestoneState.done else MilestoneState.failed
  current ← lock_current_state i
  lift (assert_legal_milestone current new_state)
  now ← gets (λ s. s.now)
  write_row i (λ m. record m {
    state = new_state;
    commit_hash = coalesce commit_hash m.commit_hash;
    retry_count = m.retry_count + (if success then 0 else 1);
    updated_at = now;
  })

abbrev pub count_if : (Milestone → Bool) → List Milestone → ℕ
count_if p ms = length (select p ms)

abbrev pub stale : Milestone → Bool
stale m = milestone_state_eq m.state MilestoneState.building

-- Reset the rows that a restart left in `building`; the number of rows.
unfoldable pub requeue_stale_building : Action ℕ
requeue_stale_building = do
  count ← gets (λ s. count_if stale s.milestones)
  now ← gets (λ s. s.now)
  modify (update_rows stale (λ m. record m { state = MilestoneState.pending; updated_at = now }))
  pure count

abbrev pub exhausted : ℕ → Milestone → Bool
exhausted project_id m =
    m.project_id == project_id
    && not (milestone_state_eq m.state MilestoneState.done)
    && ltb 0 m.retry_count

-- Zero the retries of the project's milestones that are not done; the number of rows.
unfoldable pub reset_retry_count : ℕ → Action ℕ
reset_retry_count project_id = do
  count ← gets (λ s. count_if (exhausted project_id) s.milestones)
  now ← gets (λ s. s.now)
  modify (update_rows (exhausted project_id) (λ m. record m { retry_count = 0; updated_at = now }))
  pure count
