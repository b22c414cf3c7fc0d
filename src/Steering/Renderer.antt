-- ===== src/Steering/Renderer.antt =====
-- steering/renderer.py: the notes in a role's prompt. The template engine is a parameter.
use ai_dev_swarm.Common.{List, [], ◌∷◌, ◌++◌, Text, text}
use ai_dev_swarm.Slugs.{Characters, strip_spaces}

-- `sep.join(texts)`
abbrev pub join_more : Text → List Text → Text
join_more sep [] = []
join_more sep (t ∷ ts) = sep ++ (t ++ join_more sep ts)

abbrev pub join : Text → List Text → Text
join sep [] = []
join sep (t ∷ ts) = t ++ join_more sep ts

-- `f"- {note.strip()}" for note in notes if note.strip()`
abbrev pub bullet : Text → List Text → List Text
bullet [] rest = rest
bullet (c ∷ note) rest = (text "- " ++ (c ∷ note)) ∷ rest

unfoldable pub bullets : Characters → List Text → List Text
bullets ch [] = []
bullets ch (note ∷ notes) = bullet (strip_spaces ch note) (bullets ch notes)

abbrev pub under_heading : Text → Text
under_heading [] = []
under_heading (c ∷ body) = text "\n\n## Steering notes from the operator (pending):\n" ++ (c ∷ body)

-- `_format_notes`
unfoldable pub format_notes : Characters → List Text → Text
format_notes ch notes = under_heading (join (text "\n") (bullets ch notes))
