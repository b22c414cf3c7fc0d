-- ===== src/Observability.antt =====
-- observability/event_bridge.py: the entries of the live transcript. The ids and the times of
-- entries are not modelled.
pub mod Bridge
pub mod Redactor
use ai_dev_swarm.Common.{ℕ, Bool, true, false, List, [], ◌∷◌, Option, none, some, Text, text}
use ai_dev_swarm.Store.State.{World}

pub data Topic : Type 0 where
  projects transcript metrics : Topic

-- A value of `extra`.
pub data Extra : Type 0 where
  words : Text → Extra
  flag : Bool → Extra
  count : ℕ → Extra

pub record TranscriptEntry : Type 0 where
  pub topic : Topic
  pub project_id : Option ℕ
  pub role : Option Text
  pub kind : Text
  pub text : Text
  pub extra : List (Text × Extra)

-- What accepts entries; its callers suppress its exceptions.
abbrev pub Publisher : Type 0
Publisher = TranscriptEntry → World → World

abbrev pub decision_entry : Option ℕ → Text → Text → TranscriptEntry
decision_entry project_id role body = record {
  topic = transcript;
  project_id = project_id;
  role = some role;
  kind = text "decision";
  text = body;
  extra = [];
}

-- `publish_decision`, with no `extra`: its callers pass none.
unfoldable pub publish_decision : Publisher → Option ℕ → Text → Text → World → World
publish_decision publish project_id role [] w = w
publish_decision publish project_id role (c ∷ body) w =
    publish (decision_entry project_id role (c ∷ body)) w
