-- ===== src/Ideation/Verdict.antt =====
-- What a verdict on an idea says: its likeness to the swarm's own projects, and the choice of the
-- best of the ideas that pass.
use ai_dev_swarm.Common.{
  ℕ, ltb, ◌≤◌, ◌≡◌, false, ◌&&◌, List, [], ◌∷◌, none, some, Text, All, arith, Bool-cases, ◌⊎◌, inl,
  inr, ◌≢◌, All-map, ◌+◌,
}
use mathlib.Core.List.{Mem, mem-cons_self, mem-cons_of_mem}
use ai_dev_swarm.Slugs.{Characters}
use ai_dev_swarm.Schemas.Idea.{Idea, ScoredIdea, Match}
use ai_dev_swarm.Schemas.Project.{Project}
use ai_dev_swarm.Ideation.Tokens.{close}
use ai_dev_swarm.Ideation.Novelty.{words_of, similarity_to, improves, closest}
use ai_dev_swarm.Ideation.Crew.{history_of}
use ai_dev_swarm.Ideation.Rounds.{Placed, higher, best_of, enumerate}

-- A candidate's words are none, or are not close to those of the project.
abbrev pub Apart : Characters → List Text → Text × Text → Type 0
Apart ch cand entry = (cand ≡ []) ⊎ (close (similarity_to ch cand entry) ≡ false)

module _ (ch : Characters) (cand : List Text) where
  closest-some :
      (history : List (Text × Text)) (m : Match) → closest ch cand (some m) history ≢ none
  unfolding closest
  closest-some [] m e = cc
  closest-some ((title, summary) ∷ history) m e =
      elim (Bool-cases (
        close (similarity_to ch cand (title, summary))
        && improves (similarity_to ch cand (title, summary)) (some m))) [
          | inl h ↦ closest-some history _ (rw h at e)
          | inr h ↦ closest-some history m (rw h at e)
        ]

  pub closest-Apart :
      (history : List (Text × Text))
      → closest ch cand none history ≡ none
      → All (λ entry. close (similarity_to ch cand entry) ≡ false) history
  unfolding closest
  closest-Apart [] e = tt
  closest-Apart ((title, summary) ∷ history) e =
      elim (Bool-cases (close (similarity_to ch cand (title, summary)))) [
        | inl h ↦ absurd (closest-some history _ (rw h at e))
        | inr h ↦ (h, closest-Apart history (rw h at e))
      ]

module _ (ch : Characters) where
  -- The idea is apart from every project.
  abbrev pub Unlike : List Project → Idea → Type 0
  Unlike ps idea = All (λ p. Apart ch (words_of ch idea) (p.spec.title, p.spec.summary)) ps

  pub All-history_of :
      (P : Text × Text → Type 0) (ps : List Project)
      → All P (history_of ps)
      → All (λ p. P (p.spec.title, p.spec.summary)) ps
  All-history_of P [] h = tt
  All-history_of P (p ∷ ps) (h, hs) = (h, All-history_of P ps hs)

-- The best of a list has what all its elements have.
pub best_of-All :
    (P : Placed → Type 0) (best : Placed) (ss : List Placed)
    → P best
    → All P ss
    → P (best_of best ss)
unfolding best_of
best_of-All P best [] h hs = h
best_of-All P best (s ∷ ss) h (k, ks) = elim (Bool-cases (ltb best.1.total s.1.total)) [
  | inl e ↦ best_of-All P (higher best s) ss (rw e k) ks
  | inr e ↦ best_of-All P (higher best s) ss (rw e h) ks
]

-- The higher of two is as high as each.
higher-Highest :
    (a b : Placed) → (a.1.total ≤ (higher a b).1.total) × (b.1.total ≤ (higher a b).1.total)
higher-Highest a b = elim (Bool-cases (ltb a.1.total b.1.total)) [
  | inl e ↦ rw e (ground arith, ground arith)
  | inr e ↦ rw e (ground arith, ground arith)
]

-- No element has a higher total than the best of the list.
pub best_of-Highest :
    (best : Placed) (ss : List Placed)
    → (best.1.total ≤ (best_of best ss).1.total)
      × All (λ s. s.1.total ≤ (best_of best ss).1.total) ss
unfolding best_of
best_of-Highest best [] = (omega arith, tt)
best_of-Highest best (s ∷ ss) =
    let (h, hs) = best_of-Highest (higher best s) ss in
    let (a, b) = higher-Highest best s in (omega arith, (omega arith, hs))

pub All-enumerate :
    (P : ScoredIdea → Type 0) (i : ℕ) (ss : List ScoredIdea)
    → All P ss
    → All (λ s. P s.1) (enumerate i ss)
unfolding enumerate
All-enumerate P i [] h = tt
All-enumerate P i (s ∷ ss) (h, hs) = (h, All-enumerate P (i + 1) ss hs)

-- Each element of a list is in the list.
pub All-Mem : (ss : List ScoredIdea) → All (λ s. Mem s ss) ss
All-Mem [] = tt
All-Mem (s ∷ ss) = (
  mem-cons_self,
  All-map (λ x. Mem x ss) (λ x. Mem x (s ∷ ss)) ss (λ x m. mem-cons_of_mem s m) (All-Mem ss),
)

pub enumerate-All :
    (P : ScoredIdea → Type 0) (i : ℕ) (ss : List ScoredIdea)
    → All (λ s. P s.1) (enumerate i ss)
    → All P ss
unfolding enumerate
enumerate-All P i [] h = tt
enumerate-All P i (s ∷ ss) (h, hs) = (h, enumerate-All P (i + 1) ss hs)
