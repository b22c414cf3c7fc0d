-- ===== src/AutoSplit/Lineage.antt =====
-- The loop guard of the auto-split, and how it divides a milestone.
use ai_dev_swarm.Common.{
  ℕ, ◌+◌, ◌≤◌, ◌<◌, ltb, ◌≡◌, refl, sym, ap, ◌∙◌, true, false, List, [], ◌∷◌, ◌++◌, none, some,
  text, All, length, take, drop, take-append-drop, length-take, length-append, contains,
  contains-middle, arith,
}
use ai_dev_swarm.Settings.{Settings}
use ai_dev_swarm.Schemas.Milestone.{Milestone, MilestoneSpec}
use ai_dev_swarm.Schemas.Replanner.{ReplannerAction, split}
use ai_dev_swarm.Store.State.{World}
use ai_dev_swarm.AutoSplit.{
  predict, auto_split_marker, first_half, second_half, note_prefix, middle,
  bisect_acceptance_criteria,
}

-- The guards that a split has passed.
record Passed (m : Milestone) (a : ReplannerAction) : Type 0 where
  enough : ltb (length m.spec.acceptance_criteria) 2 ≡ false
  made : a ≡ split m.id (bisect_acceptance_criteria m.spec)

predict-Passed :
    (c : Settings) (w : World) (m : Milestone) (a : ReplannerAction)
    → predict c w m ≡ some a
    → Passed m a
unfolding predict
predict-Passed c w m a e = ground arith

marked_first :
    (spec : MilestoneSpec) → contains auto_split_marker (first_half spec).technical_note ≡ true
marked_first spec =
    contains-middle (note_prefix spec.technical_note) auto_split_marker (text " 1/2]")

marked_second :
    (spec : MilestoneSpec) → contains auto_split_marker (second_half spec).technical_note ≡ true
marked_second spec =
    contains-middle (note_prefix spec.technical_note) auto_split_marker (text " 2/2]")

marked_not_split :
    (c : Settings) (w : World) (m : Milestone)
    → contains auto_split_marker m.spec.technical_note ≡ true
    → predict c w m ≡ none
unfolding predict
marked_not_split c w m h = ground arith

-- The children of an automatic split are never split automatically again: whatever the settings
-- and the sessions are by then, `predict` refuses each milestone that has a child's spec.
pub children_never_split :
    (c c' : Settings) (w w' : World) (m : Milestone) (i : ℕ) (into : List MilestoneSpec)
    → predict c w m ≡ some (split i into)
    → All (λ spec. (child : Milestone) → child.spec ≡ spec → predict c' w' child ≡ none) into
unfolding bisect_acceptance_criteria
children_never_split c c' w w' m i into e =
    let made = (predict-Passed c w m (split i into) e).made in
    let same : into ≡ bisect_acceptance_criteria m.spec = cc made in
    rw same (children, (children', tt))
  where
    children : (child : Milestone) → child.spec ≡ first_half m.spec → predict c' w' child ≡ none
    children child s = marked_not_split c' w' child (rw s (marked_first m.spec))

    children' : (child : Milestone) → child.spec ≡ second_half m.spec → predict c' w' child ≡ none
    children' child s = marked_not_split c' w' child (rw s (marked_second m.spec))

half_sizes :
    (n : ℕ)
    → ltb n 2 ≡ false
    → (0 < middle n)
      × (middle n < n)
      × (middle n ≤ n)
      × (n ≤ middle n + middle n)
      × (middle n + middle n ≤ n + 1)
half_sizes n h = (ground arith, ground arith, ground arith, ground arith, ground arith)

-- The two specs of a bisection, measured.
pub record IsBisection (spec first second : MilestoneSpec) : Type 0 where
  pub whole : first.acceptance_criteria ++ second.acceptance_criteria ≡ spec.acceptance_criteria
  pub some_left : 0 < length second.acceptance_criteria
  pub larger_first : length second.acceptance_criteria ≤ length first.acceptance_criteria
  pub even : length first.acceptance_criteria ≤ length second.acceptance_criteria + 1
  pub same_description :
      (first.description ≡ spec.description) × (second.description ≡ spec.description)

halves-IsBisection :
    (spec : MilestoneSpec)
    → ltb (length spec.acceptance_criteria) 2 ≡ false
    → IsBisection spec (first_half spec) (second_half spec)
halves-IsBisection spec h =
    let cs = spec.acceptance_criteria in
    let n = length cs in
    let whole = take-append-drop (middle n) cs in
    let sizes = half_sizes n h in
    let taken = length-take (middle n) cs sizes.2 in
    let sum = sym (length-append (take (middle n) cs) (drop (middle n) cs)) ∙ ap length whole in
    record {
      whole = whole;
      some_left = omega arith;
      larger_first = omega arith;
      even = omega arith;
      same_description = (refl, refl);
    }

-- An automatic split of a milestone makes exactly two children for it, which keep its description
-- and divide its acceptance criteria, in order and without loss; neither is empty, and the first
-- has as many as the second or one more.
pub predict-IsBisection :
    (c : Settings) (w : World) (m : Milestone) (a : ReplannerAction)
    → predict c w m ≡ some a
    → (first second : MilestoneSpec) × (a ≡ split m.id (first ∷ second ∷ []))
      × IsBisection m.spec first second
unfolding bisect_acceptance_criteria
predict-IsBisection c w m a e =
    let passed = predict-Passed c w m a e in
    (first_half m.spec, second_half m.spec, passed.made, halves-IsBisection m.spec passed.enough)
