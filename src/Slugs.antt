-- ===== src/Slugs.antt =====
-- The names that the program derives from titles: `_slug` of orchestrator/tick.py and
-- `_project_slug` of orchestrator/command_router.py (`_idea_slug` of orchestrator/orchestrator.py
-- has the same body). Python's tables of characters are a parameter.
pub mod Shape
use ai_dev_swarm.Common.{
  ℕ, ◌==◌, Bool, true, false, List, [], ◌∷◌, ◌++◌, Text, text, take, select, if◌then◌else◌,
}
use mathlib.Core.List.{reverse}

-- `c.isalnum()`, `c.isspace()` and `c.lower()`.
pub record Characters : Type 0 where
  pub is_alnum : ℕ → Bool
  pub is_space : ℕ → Bool
  pub lower : ℕ → Text

-- `s.lower()`
unfoldable pub lower_text : Characters → Text → Text
lower_text ch [] = []
lower_text ch (c ∷ s) = ch.lower c ++ lower_text ch s

-- `s.lstrip()` and `s.strip()`
unfoldable pub strip_spaces_left : Characters → Text → Text
strip_spaces_left ch [] = []
strip_spaces_left ch (c ∷ s) =
    let rest = strip_spaces_left ch s in if ch.is_space c then rest else c ∷ s

unfoldable pub strip_spaces : Characters → Text → Text
strip_spaces ch s = reverse (strip_spaces_left ch (reverse (strip_spaces_left ch s)))

abbrev pub dash : ℕ
dash = b'-'

-- `"".join(c.lower() if c.isalnum() else "-" for c in text)`
unfoldable pub dashed : Characters → Text → Text
dashed ch [] = []
dashed ch (c ∷ s) = (if ch.is_alnum c then ch.lower c else dash ∷ []) ++ dashed ch s

-- `s.lstrip("-")`
unfoldable pub strip_left : Text → Text
strip_left [] = []
strip_left (c ∷ s) = let rest = strip_left s in if c == dash then rest else c ∷ s

-- `s.strip("-")`
unfoldable pub strip : Text → Text
strip s = reverse (strip_left (reverse (strip_left s)))

-- `s or default`
abbrev pub or_default : Text → Text → Text
or_default [] d = d
or_default (c ∷ s) d = c ∷ s

unfoldable pub slug : Characters → Text → Text
slug ch s = or_default (take 32 (strip (dashed ch s))) (text "milestone")

-- `s.split("-")`: never empty.
abbrev pub cons_part : ℕ → List Text → List Text
cons_part c [] = (c ∷ []) ∷ []
cons_part c (part ∷ parts) = (c ∷ part) ∷ parts

unfoldable pub split_dash : Text → List Text
split_dash [] = [] ∷ []
split_dash (c ∷ s) = let parts = split_dash s in if c == dash then [] ∷ parts else cons_part c parts

abbrev pub non_empty : Text → Bool
non_empty [] = false
non_empty (_ ∷ _) = true

-- `"-".join(parts)`
unfoldable pub join_dash : List Text → Text
join_dash [] = []
join_dash (part ∷ []) = part
join_dash (part ∷ next ∷ parts) = part ++ (dash ∷ join_dash (next ∷ parts))

unfoldable pub project_slug : Characters → Text → Text
project_slug ch title =
    or_default (take 48 (join_dash (select non_empty (split_dash (dashed ch title))))) (text "idea")
