-- ===== src/Observability/Bridge.antt =====
-- observability/event_bridge.py: the queues of the SSE clients. Entries reach `dispatch` one after
-- another, on the thread of the event loop.
pub mod Latest
mod Tests
use ai_dev_swarm.Common.{
  ℕ, zero, suc, ◌+◌, ◌==◌, leb, Bool, true, false, not, ◌&&◌, List, [], ◌∷◌, ◌++◌, Option, none,
  some, length, select, if◌then◌else◌,
}
use ai_dev_swarm.Observability.{Topic, projects, transcript, metrics, TranscriptEntry}

-- `_QUEUE_MAXSIZE`
abbrev pub queue_maxsize : ℕ
queue_maxsize = 200

-- One client's connection: its queue, the oldest entry first, and its project filter.
pub record Connection : Type 0 where
  pub conn_id : ℕ
  pub project_filter : Option ℕ
  pub queue : List TranscriptEntry

-- `_subs` and `_loop`: the connections of each topic in the order of their subscription. An entry
-- that is published waits for the event loop in `scheduled`.
pub record EventBridge : Type 0 where
  pub projects_subs : List Connection
  pub transcript_subs : List Connection
  pub metrics_subs : List Connection
  pub attached : Bool
  pub scheduled : List TranscriptEntry

abbrev pub subs : Topic → EventBridge → List Connection
subs projects b = b.projects_subs
subs transcript b = b.transcript_subs
subs metrics b = b.metrics_subs

abbrev pub set_subs : Topic → List Connection → EventBridge → EventBridge
set_subs projects cs b = record b { projects_subs = cs }
set_subs transcript cs b = record b { transcript_subs = cs }
set_subs metrics cs b = record b { metrics_subs = cs }

-- `project_filter is None or entry.project_id == project_filter`
abbrev pub is_project : Option ℕ → ℕ → Bool
is_project none i = false
is_project (some j) i = j == i

abbrev pub wanted : Option ℕ → TranscriptEntry → Bool
wanted none e = true
wanted (some i) e = is_project e.project_id i

-- `queue.get_nowait()`, and `queue.put_nowait(entry)` on a queue that is not full.
abbrev pub drop_oldest : List TranscriptEntry → List TranscriptEntry
drop_oldest [] = []
drop_oldest (e ∷ es) = es

unfoldable pub enqueue : TranscriptEntry → List TranscriptEntry → List TranscriptEntry
enqueue e queue =
    if leb queue_maxsize (length queue) then drop_oldest queue ++ e ∷ [] else queue ++ e ∷ []

abbrev pub receive : TranscriptEntry → Connection → Connection
receive e c = if wanted c.project_filter e then record c { queue = enqueue e c.queue } else c

-- The loop of `_dispatch`.
unfoldable pub receive_all : TranscriptEntry → List Connection → List Connection
receive_all e [] = []
receive_all e (c ∷ cs) = receive e c ∷ receive_all e cs

-- `_dispatch`
unfoldable pub dispatch : TranscriptEntry → EventBridge → EventBridge
dispatch e b = set_subs e.topic (receive_all e (subs e.topic b)) b

-- `attach`
unfoldable pub attach : EventBridge → EventBridge
attach b = record b { attached = true }

-- `publish`
unfoldable pub publish : TranscriptEntry → EventBridge → EventBridge
publish e b = if b.attached then record b { scheduled = b.scheduled ++ e ∷ [] } else b

-- The event loop runs the calls that were scheduled, in their order.
unfoldable pub dispatch_all : List TranscriptEntry → EventBridge → EventBridge
dispatch_all [] b = b
dispatch_all (e ∷ es) b = dispatch_all es (dispatch e b)

unfoldable pub run_scheduled : EventBridge → EventBridge
run_scheduled b = dispatch_all b.scheduled (record b { scheduled = [] })

-- `subscribe`, with the id that it makes.
unfoldable pub subscribe : Topic → Option ℕ → ℕ → EventBridge → EventBridge
subscribe t project_id conn_id b =
    set_subs t
      (subs t b ++ record { conn_id = conn_id; project_filter = project_id; queue = [] } ∷ []) b

-- `unsubscribe`
unfoldable pub unsubscribe : Topic → ℕ → EventBridge → EventBridge
unsubscribe t conn_id b = set_subs t (select (λ c. not (c.conn_id == conn_id)) (subs t b)) b
