-- ===== src/Store/Milestones/Next.antt =====
-- Which milestone is built next.
use ai_dev_swarm.Common.{
  ℕ, ◌==◌, ◌≤◌, ◌≡◌, Bool, true, ◌&&◌, List, [], ◌∷◌, Option, none, some, All, All-select,
  select-All, sort_by-All, All-sort_by, Sorted, sort_by-Sorted, select, sort_by, head?, arith,
}
use ai_dev_swarm.Schemas.Milestone.{Milestone}
use ai_dev_swarm.Store.State.{State}
use ai_dev_swarm.Store.Milestones.{to_do, next_row}

-- Row `x` of project `i` is pending or failed.
abbrev pub waits : ℕ → Milestone → Bool
waits i x = x.project_id == i && to_do x.state

-- `next` among the rows `ms`, in the words of the caller.
abbrev pub IsNext : ℕ → List Milestone → Option Milestone → Type 0
IsNext i ms none = All (λ x. waits i x ≡ true → ⊥) ms
IsNext i ms (some m) = (waits i m ≡ true) × All (λ x. waits i x ≡ true → m.ordinal ≤ x.ordinal) ms

-- The milestone that is built next is a pending or failed one of the project, and no other such one
-- has a lower ordinal; there is none only if the project has no pending or failed milestone.
pub next_row-IsNext : (i : ℕ) (s : State) → IsNext i s.milestones (next_row i s)
next_row-IsNext i s =
    first (sort_by (λ m. m.ordinal) (select (waits i) s.milestones))
      (sort_by-Sorted (λ (m : Milestone). m.ordinal) (select (waits i) s.milestones))
      (sort_by-All (λ m. waits i m ≡ true) (λ m. m.ordinal) _
        (select-All (λ m. waits i m ≡ true) (waits i) s.milestones (λ x h. h)))
      (λ P h.
        All-select P (waits i) s.milestones
          (All-sort_by P (λ m. m.ordinal) (select (waits i) s.milestones) h))
  where
    first :
        (sorted : List Milestone)
        → Sorted (λ (m : Milestone). m.ordinal) sorted
        → All (λ m. waits i m ≡ true) sorted
        → ((P : Milestone → Type 0) → All P sorted → All (λ m. waits i m ≡ true → P m) s.milestones)
        → IsNext i s.milestones (head? sorted)
    first [] ordered waiting back = back (λ m. ⊥) tt
    first (m ∷ ms) (least, ordered) (w, waiting) back =
        (w, back (λ x. m.ordinal ≤ x.ordinal) ((omega arith), least))
