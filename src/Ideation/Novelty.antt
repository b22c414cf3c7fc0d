-- ===== src/Ideation/Novelty.antt =====
-- crews/ideation/novelty.py: the swarm's own history, and the verdict of the prior-art check. What
-- the two searches (GitHub and PyPI) find is a parameter.
use ai_dev_swarm.Common.{
  ◌*◌, leb, Bool, true, ◌&&◌, List, [], ◌∷◌, ◌++◌, Option, none, some, Text, take, if◌then◌else◌,
}
use ai_dev_swarm.Slugs.{Characters}
use ai_dev_swarm.Schemas.Idea.{Idea, Similarity, Match}
use ai_dev_swarm.Store.Action.{Action, ◌>>=◌, pure, catch}
use ai_dev_swarm.Ideation.Tokens.{space, tokenise, jaccard, close, less, no_overlap}

-- `f"{title} {summary}"`
abbrev pub pitch : Text → Text → Text
pitch title summary = title ++ (space ∷ summary)

abbrev pub words_of : Characters → Idea → List Text
words_of ch idea = tokenise ch (pitch idea.title idea.summary)

-- The similarity of an idea's words to a project of the history.
abbrev pub similarity_to : Characters → List Text → Text × Text → Similarity
similarity_to ch cand (title, summary) = jaccard cand (tokenise ch (pitch title summary))

-- `best is None or sim > best.similarity`
abbrev pub improves : Similarity → Option Match → Bool
improves sim none = true
improves sim (some best) = less best.similarity sim

abbrev pub better : Similarity → Text → Option Match → Option Match
better sim title best =
    if close sim && improves sim best
    then some (record { title = title; similarity = sim })
    else best

-- The loop of `find_duplicate`.
unfoldable pub closest : Characters → List Text → Option Match → List (Text × Text) → Option Match
closest ch cand best [] = best
closest ch cand best ((title, summary) ∷ history) =
    closest ch cand (better (similarity_to ch cand (title, summary)) title best) history

-- The read of the history under its `try`: `none` is what returns None at once.
abbrev pub guarded : Action (List (Text × Text)) → Action (Option (List (Text × Text)))
guarded history = catch (do entries ← history; pure (some entries)) (λ _. pure none)

abbrev pub closest_in : Characters → List Text → Option (List (Text × Text)) → Option Match
closest_in ch cand none = none
closest_in ch cand (some history) = closest ch cand none history

abbrev pub look_up : Characters → Action (List (Text × Text)) → List Text → Action (Option Match)
look_up ch history [] = pure none
look_up ch history (w ∷ ws) = do entries ← guarded history; pure (closest_in ch (w ∷ ws) entries)

-- `SelfHistoryDedup.find_duplicate`, on the provider of the history.
unfoldable pub find_duplicate :
    Characters → Action (List (Text × Text)) → Idea → Action (Option Match)
find_duplicate ch history idea = look_up ch history (words_of ch idea)

-- `matches.sort(key=similarity, reverse=True)`, which keeps equal ones in their order.
abbrev pub insert_match : Match → List Match → List Match
insert_match m [] = m ∷ []
insert_match m (n ∷ ns) =
    let rest = insert_match m ns in if less m.similarity n.similarity then n ∷ rest else m ∷ n ∷ ns

unfoldable pub by_similarity : List Match → List Match
by_similarity [] = []
by_similarity (m ∷ ms) = insert_match m (by_similarity ms)

pub record NoveltyReport : Type 0 where
  pub highest : Similarity
  pub top_matches : List Match

abbrev pub highest_of : List Match → Similarity
highest_of [] = no_overlap
highest_of (m ∷ ms) = m.similarity

-- `NoveltyChecker.check`, on what the searches found.
unfoldable pub check : List Match → NoveltyReport
check matches =
    let top = take 5 (by_similarity matches) in
    record { highest = highest_of top; top_matches = top }

-- `score >= 0.6`, where the score is 1 less the highest similarity.
unfoldable pub is_novel : NoveltyReport → Bool
is_novel report = leb (5 * report.highest.common) (2 * report.highest.all)
