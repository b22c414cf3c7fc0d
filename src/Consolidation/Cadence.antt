-- ===== src/Consolidation/Cadence.antt =====
-- When a consolidation is due.
use ai_dev_swarm.Common.{
  ℕ, suc, ◌+◌, ◌%◌, ltb, ◌==◌, ◌≡◌, refl, Bool, true, false, ◌&&◌, List, [], ◌∷◌, ◌++◌, any, select,
  length, arith,
}
use ai_dev_swarm.Schemas.Milestone.{Milestone}
use ai_dev_swarm.Consolidation.{
  is_consolidation, is_done, in_flight, done_since, should_insert_consolidation,
  build_consolidation_spec,
}

-- A milestone with the injected spec carries the marker that the cadence looks for.
built-is_consolidation :
    (m : Milestone) → m.spec ≡ build_consolidation_spec → is_consolidation m ≡ true
unfolding is_consolidation build_consolidation_spec
built-is_consolidation m e = rw e refl

any-middle :
    (p : Milestone → Bool) (xs ys : List Milestone) (m : Milestone)
    → p m ≡ true
    → any p (xs ++ m ∷ ys) ≡ true
any-middle p [] ys m h = rw h
any-middle p (x ∷ xs) ys m h = ground (arith, any-middle p xs ys m h)

-- While an injected consolidation is anywhere in the graph and not done, no other is injected,
-- whatever the cadence.
pub one_at_a_time :
    (every : ℕ) (before after : List Milestone) (m : Milestone)
    → m.spec ≡ build_consolidation_spec
    → is_done m ≡ false
    → should_insert_consolidation every (before ++ m ∷ after) ≡ false
unfolding should_insert_consolidation
one_at_a_time every before after m e d =
    let flying : in_flight m ≡ true = rw (built-is_consolidation m e, d) in
    ground (arith, any-middle in_flight before after m flying)

done_since-plain :
    (ms : List Milestone) (count : ℕ)
    → any is_consolidation ms ≡ false
    → done_since count ms ≡ count + length (select is_done ms)
unfolding done_since
done_since-plain [] count h = omega arith
done_since-plain (m ∷ ms) count h =
    ground (arith, done_since-plain ms count, done_since-plain ms (count + 1))

done_since-last :
    (before after : List Milestone) (c : Milestone) (count : ℕ)
    → is_consolidation c ≡ true
    → any is_consolidation after ≡ false
    → done_since count (before ++ c ∷ after) ≡ length (select is_done after)
unfolding done_since
done_since-last [] after c count h none_after = ground (arith, done_since-plain after 0 none_after)
done_since-last (b ∷ before) after c count h none_after =
    done_since-last before after c _ h none_after

-- Behind the last consolidation `c`, and with none in flight, the next one is due exactly when
-- the milestones done since are a positive multiple of the cadence.
pub due_after_last :
    (every : ℕ) (before after : List Milestone) (c : Milestone)
    → is_consolidation c ≡ true
    → any is_consolidation after ≡ false
    → any in_flight (before ++ c ∷ after) ≡ false
    → should_insert_consolidation (suc every) (before ++ c ∷ after)
      ≡ (ltb 0 (length (select is_done after)) && length (select is_done after) % suc every == 0)
unfolding should_insert_consolidation
due_after_last every before after c h none_after none_flying =
    let count = done_since-last before after c 0 h none_after in ground (arith, count)
