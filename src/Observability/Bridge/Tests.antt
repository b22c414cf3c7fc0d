-- ===== src/Observability/Bridge/Tests.antt =====
-- The theorem about the queues at a concrete input.
use ai_dev_swarm.Common.{◌≡◌, ◌≤◌, arith, [], ◌∷◌, some, none, text, true, map}
use ai_dev_swarm.Observability.{TranscriptEntry, decision_entry, transcript}
use ai_dev_swarm.Observability.Bridge.{EventBridge, subs, dispatch_all}
use ai_dev_swarm.Observability.Bridge.Latest.{caught_up, dispatch_all-latest}

abbrev decision : TranscriptEntry
decision = decision_entry (some 1) (text "Reviewer") (text "Approved")

-- Two clients of the transcript, one of them of the first project only.
abbrev watched : EventBridge
watched = record {
  projects_subs = [];
  transcript_subs =
      record { conn_id = 7; project_filter = some 1; queue = decision ∷ [] }
      ∷ record { conn_id = 8; project_filter = none; queue = [] }
      ∷ [];
  metrics_subs = [];
  attached = true;
  scheduled = [];
}

few : 1 ≤ 200
few = omega arith

none_yet : 0 ≤ 200
none_yet = omega arith

dispatch_all-latest_example :
    subs transcript (dispatch_all (decision ∷ decision ∷ []) watched)
    ≡ map (caught_up transcript (decision ∷ decision ∷ [])) (subs transcript watched)
dispatch_all-latest_example =
    dispatch_all-latest transcript (decision ∷ decision ∷ []) watched (few, (none_yet, tt))
