-- ===== src/Ideation/Crew.antt =====
-- crews/ideation/crew.py: the critic's output is parsed, scored anew, and checked for novelty.
-- Parameters: the language models' answer after the repair of its JSON and the validation of each
-- entry, what the prior-art searches find, whether the database answers the read of the history, and
-- the arithmetic of doubles.
use ai_dev_swarm.Common.{
  ℕ, leb, min, List, [], ◌∷◌, Option, none, some, Text, text, map, take, if◌then◌else◌,
}
use ai_dev_swarm.Settings.{Settings}
use ai_dev_swarm.Schemas.Exceptions.{Result, ok, raise, value_error}
use ai_dev_swarm.Schemas.Idea.{
  Idea, CriticScores, ScoredIdea, Rejection, by_critic, low_novelty, duplicate, Match,
}
use ai_dev_swarm.Schemas.Project.{Project}
use ai_dev_swarm.Store.State.{World}
use ai_dev_swarm.Store.Action.{Action, ◌>>=◌, ◌>>◌, pure, lift, on_world}
use ai_dev_swarm.Store.Projects.{list_all}
use ai_dev_swarm.Spend.{Prices, record_crew_spend}
use ai_dev_swarm.Ideation.Novelty.{find_duplicate, NoveltyReport, check, is_novel}

-- Python's floats, as far as the score needs them; `hundredths 30` is the literal 0.30.
pub record Doubles (D : Type 0) : Type 0 where
  pub hundredths : ℕ → D
  pub times : (n : ℕ) → D → D
  pub plus : D → D → D
  pub round : D → ℕ

-- An entry of the critic's list that has the declared fields, with its own `total` ignored.
pub record Entry : Type 0 where
  pub idea : Idea
  pub scores : CriticScores
  pub rejected_reason : Option Text

-- The crew's output: its token usage, and the list if it is one, with `none` for each entry that
-- validation refuses.
pub record CrewOutput : Type 0 where
  pub usage : Option (ℕ × ℕ)
  pub entries : Option (List (Option Entry))

pub record IdeationDeps (D : Type 0) : Type 0 where
  pub settings : Settings
  pub doubles : Doubles D
  pub prices : Prices
  pub kickoff : World → Result CrewOutput × World
  pub search : Idea → World → List Match × World
  pub database : World → Result (Unit {0}) × World

abbrev pub critic_words : Option Text → Option Rejection
critic_words none = none
critic_words (some words) = some (by_critic words)

module _ {D : Type 0} where
  -- `CriticScores.weighted_total`
  unfoldable pub weighted_total : Doubles D → CriticScores → ℕ
  weighted_total f s = f.round (
      f.plus
        (f.plus
          (f.plus
            (f.plus (f.times s.depth_ambition (f.hundredths 30))
              (f.times s.usefulness_niche (f.hundredths 25)))
            (f.times s.novelty (f.hundredths 20)))
          (f.times s.decomposability (f.hundredths 15)))
        (f.times s.buildability (f.hundredths 10)))

  -- One entry: `ScoredIdea` wants a total of at most 100.
  abbrev pub score_entry : Doubles D → Option Entry → List ScoredIdea → List ScoredIdea
  score_entry f none out = out
  score_entry f (some e) out =
      let total = weighted_total f e.scores in
      if leb total 100
      then record {
        idea = e.idea;
        scores = e.scores;
        total = total;
        rejected_reason = critic_words e.rejected_reason;
      }
        ∷ out
      else out

  unfoldable pub parse_entries : Doubles D → List (Option Entry) → List ScoredIdea
  parse_entries f [] = []
  parse_entries f (e ∷ es) = score_entry f e (parse_entries f es)

  -- `_parse`
  unfoldable pub parse : Doubles D → Option (List (Option Entry)) → Result (List ScoredIdea)
  parse f none = raise (value_error (text "Critic did not return a JSON list"))
  parse f (some es) = ok (parse_entries f es)

-- The `model_copy` of a rejection: no novelty, and a total under the gate.
unfoldable pub rejected : ScoredIdea → Rejection → ScoredIdea
rejected scored reason = record scored {
  scores = record scored.scores { novelty = 0 };
  total = min scored.total 50;
  rejected_reason = some reason;
}

-- `_apply_novelty`, on the report.
unfoldable pub grade : NoveltyReport → ScoredIdea → ScoredIdea
grade report scored =
    if is_novel report
    then scored
    else rejected scored (low_novelty (map (λ m. m.title) (take 3 report.top_matches)))

abbrev pub reject_duplicate : ScoredIdea → Option Match → ScoredIdea
reject_duplicate scored none = scored
reject_duplicate scored (some dup) = rejected scored (duplicate dup.title)

-- `lambda: [(p.spec.title, p.spec.summary) for p in project_repo.list_all()]`
abbrev pub history_of : List Project → List (Text × Text)
history_of ps = map (λ p. (p.spec.title, p.spec.summary)) ps

abbrev pub found : (World → List Match × World) → World → Result (List Match) × World
found look w = let (ms, w') = look w in (ok ms, w')

module _ {D : Type 0} where
  unfoldable pub apply_novelty : IdeationDeps D → ScoredIdea → Action ScoredIdea
  apply_novelty d scored = do
    matches ← on_world (found (d.search scored.idea))
    pure (grade (check matches) scored)

  unfoldable pub apply_novelty_to : IdeationDeps D → List ScoredIdea → Action (List ScoredIdea)
  apply_novelty_to d [] = pure []
  apply_novelty_to d (s ∷ ss) = do
    graded ← apply_novelty d s
    rest ← apply_novelty_to d ss
    pure (graded ∷ rest)

  -- The provider of the history, which is called anew for each idea.
  unfoldable pub read_history : IdeationDeps D → Action (List (Text × Text))
  read_history d = do on_world d.database; projects ← list_all; pure (history_of projects)

  -- `_apply_self_dedup`
  unfoldable pub apply_self_dedup : IdeationDeps D → ScoredIdea → Action ScoredIdea
  apply_self_dedup d scored = do
    dup ← find_duplicate d.prices.characters (read_history d) scored.idea
    pure (reject_duplicate scored dup)

  unfoldable pub apply_self_dedup_to : IdeationDeps D → List ScoredIdea → Action (List ScoredIdea)
  apply_self_dedup_to d [] = pure []
  apply_self_dedup_to d (s ∷ ss) = do
    judged ← apply_self_dedup d s
    rest ← apply_self_dedup_to d ss
    pure (judged ∷ rest)

  -- `CrewaiIdeationCrew.run`, up to the comparison with the swarm's own history.
  unfoldable pub graded_ideas : IdeationDeps D → Action (List ScoredIdea)
  graded_ideas d = do
    output ← on_world d.kickoff
    record_crew_spend d.prices output.usage none none (text "ideation") d.settings.model_strong
    parsed ← lift (parse d.doubles output.entries)
    apply_novelty_to d parsed

  -- `CrewaiIdeationCrew.run`
  unfoldable pub run : IdeationDeps D → Action (List ScoredIdea)
  run d = do graded ← graded_ideas d; apply_self_dedup_to d graded
