-- ===== src/Schemas/Idea.antt =====
-- schemas/idea.py and schemas/novelty.py: ideas, their scores, and what is stored of them. The
-- source and the address of a match are left out.
use ai_dev_swarm.Common.{ℕ, ltb, Bool, List, Option, Text}

pub record Idea : Type 0 where
  pub title : Text
  pub summary : Text
  pub rationale : Text
  pub stack : List Text
  pub tags : List Text

pub record CriticScores : Type 0 where
  pub depth_ambition : ℕ
  pub usefulness_niche : ℕ
  pub novelty : ℕ
  pub decomposability : ℕ
  pub buildability : ℕ

-- Why an idea is rejected: the critic's words, or one of the program's two texts.
pub data Rejection : Type 0 where
  by_critic : (words : Text) → Rejection
  low_novelty : (matches : List Text) → Rejection
  duplicate : (title : Text) → Rejection

pub record ScoredIdea : Type 0 where
  pub idea : Idea
  pub scores : CriticScores
  pub total : ℕ
  pub rejected_reason : Option Rejection

pub record IdeaEvaluation : Type 0 where
  pub round : ℕ
  pub title : Text
  pub summary : Text
  pub scores : CriticScores
  pub total : ℕ
  pub novel : Bool
  pub accepted : Bool
  pub rejected_reason : Option Rejection
  pub project_id : Option ℕ

-- `IdeaEvaluation.from_scored`
unfoldable pub from_scored : ScoredIdea → ℕ → Bool → Option ℕ → IdeaEvaluation
from_scored scored round accepted project_id = record {
  round = round;
  title = scored.idea.title;
  summary = scored.idea.summary;
  scores = scored.scores;
  total = scored.total;
  novel = ltb 0 scored.scores.novelty;
  accepted = accepted;
  rejected_reason = scored.rejected_reason;
  project_id = project_id;
}

-- A similarity is a fraction, compared by cross multiplication: for texts of fewer than 2^26 words
-- that is what Python's floats decide.
pub record Similarity : Type 0 where
  pub common : ℕ
  pub all : ℕ

pub record Match : Type 0 where
  pub title : Text
  pub similarity : Similarity
