-- ===== src/Store/Milestones/Graph/Ordinals.antt =====
-- The ordinals of the milestones under the edits of the graph: no edit runs into the constraint
-- UNIQUE (project_id, ordinal).
use ai_dev_swarm.Common.{
  ℕ, ◌+◌, ◌-◌, ◌==◌, ◌≤◌, ◌<◌, ltb, ◌≡◌, refl, sym, ◌∙◌, Bool, true, false, not, ◌&&◌, List, [],
  ◌∷◌, some, find, select, any, update_where, length, if◌then◌else◌, arith, Bool-cases, inl, inr,
  ==→eq,
}
use ai_dev_swarm.Schemas.Milestone.{Milestone, MilestoneSpec}
use ai_dev_swarm.Schemas.Exceptions.{ok}
use ai_dev_swarm.Store.State.{State}
use ai_dev_swarm.Store.Action.{Action, ◌>>=◌}
use ai_dev_swarm.Store.Milestones.{
  has_id, row, clash, unique_ordinals, transaction, new_row, insert_row, insert_rows,
}
use ai_dev_swarm.Store.Milestones.Graph.{
  later_row, bump, shift_later, delete_row, insert_after, replace_with,
}

-- Some row of project `i` has the ordinal `o`.
abbrev pub taken : ℕ → ℕ → List Milestone → Bool
taken i o ms = any (λ m. i == m.project_id && o == m.ordinal) ms

module _ (i after by now : ℕ) where
  abbrev shifted : List Milestone → List Milestone
  shifted ms = update_where (later_row i after) (bump by now) ms

  -- A shift moves the rows of a project apart, never together.
  clash-shifted :
      (m : Milestone) (ms : List Milestone)
      → any (clash (if later_row i after m then bump by now m else m)) (shifted ms)
        ≡ any (clash m) ms
  clash-shifted m [] = refl
  clash-shifted m (x ∷ xs) = ground (arith, clash-shifted m xs)

  unique-shifted :
      (ms : List Milestone) → unique_ordinals ms ≡ true → unique_ordinals (shifted ms) ≡ true
  unfolding unique_ordinals
  unique-shifted [] h = refl
  unique-shifted (m ∷ ms) h = rw (clash-shifted m ms) (ground (arith, unique-shifted ms))

  -- It frees the ordinals behind `after`.
  gap : (o : ℕ) (ms : List Milestone) → after < o → o ≤ after + by → taken i o (shifted ms) ≡ false
  gap o [] lo hi = refl
  gap o (m ∷ ms) lo hi = ground (arith, gap o ms lo hi)

-- What a transaction whose body ends with unique ordinals does.
commits :
    {A : Type 0} (m : Action A) (s t : State) (a : A)
    → m s ≡ (ok a, t)
    → unique_ordinals t.milestones ≡ true
    → transaction m s ≡ (ok a, t)
commits m s t a e u = rw (e, u) refl

-- Where the ordinals are unique, inserting a milestone behind a stored one succeeds: it returns the
-- new row, with the next ordinal of the same project, and the ordinals are unique afterwards.
pub insert_after_commits :
    (i : ℕ) (spec : MilestoneSpec) (s : State) (anchor : Milestone)
    → unique_ordinals s.milestones ≡ true
    → row i s ≡ some anchor
    → ((insert_after i spec s).0 ≡ ok (new_row anchor.project_id (anchor.ordinal + 1) spec s))
      × (unique_ordinals (insert_after i spec s).1.milestones ≡ true)
unfolding insert_after ◌>>=◌ shift_later insert_row unique_ordinals
insert_after_commits i spec s anchor u e =
    let a = anchor.ordinal in
    let project = anchor.project_id in
    let free = gap project a 1 s.now (a + 1) s.milestones (omega arith) (omega arith) in
    let kept = unique-shifted project a 1 s.now s.milestones u in
    let unique : unique_ordinals
          (new_row project (a + 1) spec s ∷ shifted project a 1 s.now s.milestones)
        ≡ true =
      rw (free, kept) refl in
    rw (e, unique) (refl, unique)

-- The ordinals from `o` on, `k` of them, are free.
abbrev Free : ℕ → ℕ → ℕ → List Milestone → Type 0
Free i o k ms = (n : ℕ) → o ≤ n → n < o + k → taken i n ms ≡ false

-- A run of inserts into free ordinals.
insert_rows_unique :
    (i o : ℕ) (specs : List MilestoneSpec) (s : State)
    → unique_ordinals s.milestones ≡ true
    → Free i o (length specs) s.milestones
    → (ms : List Milestone) × ((insert_rows i o specs s).0 ≡ ok ms)
      × (unique_ordinals (insert_rows i o specs s).1.milestones ≡ true)
unfolding insert_rows ◌>>=◌ insert_row unique_ordinals
insert_rows_unique i o [] s u free = ([], refl, u)
insert_rows_unique i o (spec ∷ specs) s u free =
    let head = free o (omega arith) (omega arith) in
    let s' = (insert_row i o spec s).1 in
    let u' : unique_ordinals s'.milestones ≡ true = rw (head, u) refl in
    let rest = insert_rows_unique i (o + 1) specs s' u' (λ n lo hi. ground (arith, free n)) in
    (new_row i o spec s ∷ rest.0, rw rest.1 refl, rw rest.1 rest.2)

abbrev without : ℕ → List Milestone → List Milestone
without i ms = select (λ m. not (has_id i m)) ms

any-without :
    (p : Milestone → Bool) (i : ℕ) (ms : List Milestone)
    → any p ms ≡ false
    → any p (without i ms) ≡ false
any-without p i [] h = refl
any-without p i (m ∷ ms) h = ground (arith, any-without p i ms)

unique-without :
    (i : ℕ) (ms : List Milestone)
    → unique_ordinals ms ≡ true
    → unique_ordinals (without i ms) ≡ true
unfolding unique_ordinals
unique-without i [] h = refl
unique-without i (m ∷ ms) h = ground (arith, unique-without i ms, any-without (clash m) i ms)

found-passes :
    (p q : Milestone → Bool) (ms : List Milestone) (m : Milestone)
    → any p ms ≡ false
    → find q ms ≡ some m
    → p m ≡ false
found-passes p q [] m h e = cc
found-passes p q (x ∷ xs) m h e = ground (arith, found-passes p q xs m)

-- A shift behind `a` leaves the ordinal `a` as free as it was.
taken-shifted :
    (i a by now : ℕ) (ms : List Milestone) → taken i a (shifted i a by now ms) ≡ taken i a ms
taken-shifted i a by now [] = refl
taken-shifted i a by now (m ∷ ms) = ground (arith, taken-shifted i a by now ms)

-- Deleting a row frees its ordinal.
freed :
    (i by now : ℕ) (ms : List Milestone) (parent : Milestone)
    → unique_ordinals ms ≡ true
    → find (has_id i) ms ≡ some parent
    → taken parent.project_id parent.ordinal
        (without i (shifted parent.project_id parent.ordinal by now ms))
      ≡ false
unfolding unique_ordinals
freed i by now [] parent u e = cc
freed i by now (m ∷ ms) parent u e = elim (Bool-cases (m.id == i)) [
  | inl h ↦
      let same : m ≡ parent = ground arith in
      let alone : any (clash m) ms ≡ false = ground arith in
      let alone' : taken parent.project_id parent.ordinal ms ≡ false = rw same at alone in
      let rest =
        any-without (λ x. parent.project_id == x.project_id && parent.ordinal == x.ordinal) i
          (shifted parent.project_id parent.ordinal by now ms)
          (taken-shifted parent.project_id parent.ordinal by now ms ∙ alone') in
      ground (arith)
  | inr h ↦
      let e' : find (has_id i) ms ≡ some parent = ground arith in
      let apart : clash m parent ≡ false =
        found-passes (clash m) (has_id i) ms parent (ground arith) e' in
      ground (arith, freed i by now ms parent)
]

-- Where the ordinals are unique, replacing a stored milestone by two or more succeeds, and the
-- ordinals are unique afterwards.
pub replace_with_commits :
    (i : ℕ) (into : List MilestoneSpec) (s : State) (parent : Milestone)
    → unique_ordinals s.milestones ≡ true
    → row i s ≡ some parent
    → 2 ≤ length into
    → (ms : List Milestone) × ((replace_with i into s).0 ≡ ok ms)
      × (unique_ordinals (replace_with i into s).1.milestones ≡ true)
unfolding replace_with ◌>>=◌ shift_later delete_row
replace_with_commits i into s parent u e enough =
    let enough' : ltb 1 (length into) ≡ true = ground arith in
    let kept = unique-without i _ (unique-shifted project a by s.now s.milestones u) in
    let done = insert_rows_unique project a into s' kept free in
    (done.0, rw (enough', e, done.1, done.2) refl, rw (enough', e, done.1, done.2) done.2)
  where
    a : ℕ
    a = parent.ordinal

    project : ℕ
    project = parent.project_id

    by : ℕ
    by = length into - 1

    s' : State
    s' = record s { milestones = without i (shifted project a by s.now s.milestones) }

    free : Free project a (length into) s'.milestones
    free n lo hi = elim (Bool-cases (a == n)) [
      | inl h ↦ rw (sym (==→eq a n h)) (freed i by s.now s.milestones parent u e)
      | inr h ↦
          any-without (λ m. project == m.project_id && n == m.ordinal) i _
            (gap project a by s.now n s.milestones (ground arith) (omega arith))
    ]
