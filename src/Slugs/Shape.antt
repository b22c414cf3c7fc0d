-- ===== src/Slugs/Shape.antt =====
-- The lengths of the derived names.
use ai_dev_swarm.Common.{ℕ, zero, suc, ◌≤◌, ◌<◌, [], ◌∷◌, Text, text, length, take, select, arith}
use ai_dev_swarm.Slugs.{
  Characters, dashed, strip, or_default, slug, project_slug, split_dash, join_dash, non_empty,
}

length-take_le : (n : ℕ) (t : Text) → length (take n t) ≤ n
length-take_le zero t = omega arith
length-take_le (suc n) [] = omega arith
length-take_le (suc n) (c ∷ t) = omega (arith, length-take_le n t)

-- A default that fits.
fits :
    (n : ℕ) (t d : Text)
    → length t ≤ n
    → 0 < length d
    → length d ≤ n
    → (0 < length (or_default t d)) × (length (or_default t d) ≤ n)
fits n [] d h lo hi = (lo, hi)
fits n (c ∷ t) d h lo hi = (omega arith, h)

-- Whatever the title, and whatever the tables of characters: the slug in a commit message has
-- between 1 and 32 characters, and the name of a project between 1 and 48.
slug_lengths :
    (ch : Characters) (title : Text)
    → (0 < length (slug ch title))
      × (length (slug ch title) ≤ 32)
      × (0 < length (project_slug ch title))
      × (length (project_slug ch title) ≤ 48)
unfolding slug project_slug
slug_lengths ch title =
    let a =
      fits 32 (take 32 (strip (dashed ch title))) (text "milestone") (length-take_le 32 _)
        (omega arith) (omega arith) in
    let b =
      fits 48 (take 48 (join_dash (select non_empty (split_dash (dashed ch title))))) (text "idea")
        (length-take_le 48 _) (omega arith) (omega arith) in
    (a.0, a.1, b.0, b.1)
