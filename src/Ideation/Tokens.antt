-- ===== src/Ideation/Tokens.antt =====
-- crews/ideation/novelty.py: sets of words, and how alike two are. A set is a list without
-- repetitions.
use ai_dev_swarm.Common.{
  ℕ, ◌+◌, ◌-◌, ◌*◌, leb, ltb, Bool, List, [], ◌∷◌, ◌++◌, Text, text_eq, any, select, length,
  if◌then◌else◌,
}
use ai_dev_swarm.Slugs.{Characters}
use ai_dev_swarm.Schemas.Idea.{Similarity}

abbrev pub space : ℕ
space = b' '

-- `"".join(c.lower() if c.isalnum() else " " for c in text)`
unfoldable pub spaced : Characters → Text → Text
spaced ch [] = []
spaced ch (c ∷ s) = (if ch.is_alnum c then ch.lower c else space ∷ []) ++ spaced ch s

-- `s.split()`: the word that begins the text, and the other words.
abbrev pub flush : Text → List Text → List Text
flush [] words = words
flush (c ∷ word) words = (c ∷ word) ∷ words

abbrev pub scan : Bool → ℕ → Text × List Text → Text × List Text
scan is_space c (word, words) = if is_space then ([], flush word words) else (c ∷ word, words)

unfoldable pub split : Characters → Text → Text × List Text
split ch [] = ([], [])
split ch (c ∷ s) = scan (ch.is_space c) c (split ch s)

abbrev pub has : List Text → Text → Bool
has set word = any (text_eq word) set

abbrev pub add : Text → List Text → List Text
add word set = if has set word then set else word ∷ set

unfoldable pub to_set : List Text → List Text
to_set [] = []
to_set (word ∷ words) = add word (to_set words)

-- `_tokenise`
unfoldable pub tokenise : Characters → Text → List Text
tokenise ch s = let (word, words) = split ch (spaced ch s) in to_set (flush word words)

-- `len(a & b)`
abbrev pub shared : List Text → List Text → ℕ
shared a b = length (select (has b) a)

abbrev pub no_overlap : Similarity
no_overlap = record { common = 0; all = 1 }

-- `_jaccard`
unfoldable pub jaccard : List Text → List Text → Similarity
jaccard [] b = no_overlap
jaccard (x ∷ a) [] = no_overlap
jaccard (x ∷ a) (y ∷ b) = record {
  common = shared (x ∷ a) (y ∷ b);
  all = (length (x ∷ a) + length (y ∷ b)) - shared (x ∷ a) (y ∷ b);
}

-- `sim >= 0.6`
abbrev pub close : Similarity → Bool
close sim = leb (3 * sim.all) (5 * sim.common)

-- `a < b`
abbrev pub less : Similarity → Similarity → Bool
less a b = ltb (a.common * b.all) (b.common * a.all)
