-- ===== src/Observability/Bridge/Latest.antt =====
-- What a client's queue holds after the event loop has run.
use ai_dev_swarm.Common.{
  ℕ, suc, ◌-◌, ◌≤◌, ◌≡◌, refl, sym, ◌∙◌, ap, leb, Bool, true, false, ◌&&◌, List, [], ◌∷◌, ◌++◌,
  Option, length, length-append, drop, select, map, All, arith, Bool-cases, inl, inr, if◌then◌else◌,
}
use mathlib.Core.List.{append_assoc, append-nil}
use ai_dev_swarm.Observability.{Topic, projects, transcript, metrics, TranscriptEntry}
use ai_dev_swarm.Observability.Bridge.{
  queue_maxsize, Connection, EventBridge, subs, set_subs, wanted, drop_oldest, enqueue, receive,
  receive_all, dispatch, dispatch_all,
}

abbrev pub is_topic : Topic → Topic → Bool
is_topic projects projects = true
is_topic transcript transcript = true
is_topic metrics metrics = true
is_topic projects transcript = false
is_topic projects metrics = false
is_topic transcript projects = false
is_topic transcript metrics = false
is_topic metrics projects = false
is_topic metrics transcript = false

-- The last 200 of a list.
abbrev pub latest : List TranscriptEntry → List TranscriptEntry
latest xs = drop (length xs - queue_maxsize) xs

-- What a client wants of the entries.
abbrev pub addressed : Topic → Option ℕ → List TranscriptEntry → List TranscriptEntry
addressed t filter es = select (λ e. is_topic e.topic t && wanted filter e) es

-- A connection after the entries: a queue of the latest of all that it was sent.
abbrev pub caught_up : Topic → List TranscriptEntry → Connection → Connection
caught_up t es c = record c { queue = latest (c.queue ++ addressed t c.project_filter es) }

latest-short : (xs : List TranscriptEntry) → length xs ≤ queue_maxsize → latest xs ≡ xs
latest-short xs h = let e : length xs - queue_maxsize ≡ 0 = omega arith in rw e refl

latest-cons :
    (x : TranscriptEntry) (xs : List TranscriptEntry)
    → queue_maxsize ≤ length xs
    → latest (x ∷ xs) ≡ latest xs
latest-cons x xs h =
    let e : suc (length xs) - queue_maxsize ≡ suc (length xs - queue_maxsize) = omega arith in
    rw e refl

latest-enqueue :
    (e : TranscriptEntry) (q ws : List TranscriptEntry)
    → length q ≤ queue_maxsize
    → latest (enqueue e q ++ ws) ≡ latest (q ++ e ∷ ws)
unfolding enqueue
latest-enqueue e [] ws h = refl
latest-enqueue e (x ∷ q) ws h = elim (Bool-cases (leb queue_maxsize (length (x ∷ q)))) [
  | inl k ↦
      let full : queue_maxsize ≤ length (q ++ e ∷ ws) = ground (arith, length-append q (e ∷ ws)) in
      rw (k, append_assoc q (e ∷ []) ws) (sym (latest-cons x (q ++ e ∷ ws) full))
  | inr k ↦ rw (k, append_assoc q (e ∷ []) ws) refl
]

length-drop_oldest : (q : List TranscriptEntry) → length (drop_oldest q) ≡ length q - 1
length-drop_oldest [] = omega arith
length-drop_oldest (x ∷ q) = omega arith

length-enqueue :
    (e : TranscriptEntry) (q : List TranscriptEntry)
    → length q ≤ queue_maxsize
    → length (enqueue e q) ≤ queue_maxsize
unfolding enqueue
length-enqueue e q h = elim (Bool-cases (leb queue_maxsize (length q))) [
  | inl k ↦ rw k (ground (arith, length-append (drop_oldest q) (e ∷ []), length-drop_oldest q))
  | inr k ↦ rw k (ground (arith, length-append q (e ∷ [])))
]

abbrev pub Bounded : Connection → Type 0
Bounded c = length c.queue ≤ queue_maxsize

-- One entry, for a connection to the topic.
abbrev turn : Topic → TranscriptEntry → Connection → Connection
turn t e c = if is_topic e.topic t then receive e c else c

turn-Bounded : (t : Topic) (e : TranscriptEntry) (c : Connection) → Bounded c → Bounded (turn t e c)
turn-Bounded t e c h = elim (Bool-cases (is_topic e.topic t)) [
  | inl k ↦ elim (Bool-cases (wanted c.project_filter e)) [
    | inl l ↦ simp (k, l) (length-enqueue e c.queue h)
    | inr l ↦ simp (k, l) h
  ]
  | inr k ↦ simp k h
]

caught_up-turn :
    (t : Topic) (e : TranscriptEntry) (es : List TranscriptEntry) (c : Connection)
    → Bounded c
    → caught_up t es (turn t e c) ≡ caught_up t (e ∷ es) c
caught_up-turn t e es c h = elim (Bool-cases (is_topic e.topic t)) [
  | inl k ↦ elim (Bool-cases (wanted c.project_filter e)) [
    | inl l ↦
        simp (k, l)
          (ap (λ q. record c { queue = q })
            (latest-enqueue e c.queue (addressed t c.project_filter es) h))
    | inr l ↦ simp (k, l) refl
  ]
  | inr k ↦ simp k refl
]

-- What one dispatch does to the connections of a topic.
subs-set_subs :
    (t u : Topic) (f : List Connection → List Connection) (b : EventBridge)
    → subs t (set_subs u (f (subs u b)) b) ≡ (if is_topic u t then f (subs t b) else subs t b)
subs-set_subs projects projects f b = refl
subs-set_subs transcript transcript f b = refl
subs-set_subs metrics metrics f b = refl
subs-set_subs projects transcript f b = refl
subs-set_subs projects metrics f b = refl
subs-set_subs transcript projects f b = refl
subs-set_subs transcript metrics f b = refl
subs-set_subs metrics projects f b = refl
subs-set_subs metrics transcript f b = refl

map-turn :
    (t : Topic) (e : TranscriptEntry) (cs : List Connection)
    → map (turn t e) cs ≡ (if is_topic e.topic t then receive_all e cs else cs)
unfolding receive_all
map-turn t e [] = elim (Bool-cases (is_topic e.topic t)) [ inl k ↦ rw k refl | inr k ↦ rw k refl ]
map-turn t e (c ∷ cs) =
    rw (map-turn t e cs)
      (elim (Bool-cases (is_topic e.topic t)) [ inl k ↦ simp k refl | inr k ↦ simp k refl ])

subs-dispatch :
    (t : Topic) (e : TranscriptEntry) (b : EventBridge)
    → subs t (dispatch e b) ≡ map (turn t e) (subs t b)
unfolding dispatch
subs-dispatch t e b = subs-set_subs t e.topic (receive_all e) b ∙ sym (map-turn t e (subs t b))

map-turn-Bounded :
    (t : Topic) (e : TranscriptEntry) (cs : List Connection)
    → All Bounded cs
    → All Bounded (map (turn t e) cs)
map-turn-Bounded t e [] h = tt
map-turn-Bounded t e (c ∷ cs) (h, hs) = (turn-Bounded t e c h, map-turn-Bounded t e cs hs)

map-caught_up :
    (t : Topic) (e : TranscriptEntry) (es : List TranscriptEntry) (cs : List Connection)
    → All Bounded cs
    → map (caught_up t es) (map (turn t e) cs) ≡ map (caught_up t (e ∷ es)) cs
map-caught_up t e es [] h = refl
map-caught_up t e es (c ∷ cs) (h, hs) =
    rw (caught_up-turn t e es c h, map-caught_up t e es cs hs) refl

map-caught_up_nothing :
    (t : Topic) (cs : List Connection) → All Bounded cs → map (caught_up t []) cs ≡ cs
map-caught_up_nothing t [] h = refl
map-caught_up_nothing t (c ∷ cs) (h, hs) =
    let e : latest (c.queue ++ []) ≡ c.queue = rw (append-nil c.queue) (latest-short c.queue h) in
    rw (e, map-caught_up_nothing t cs hs) refl

-- After the event loop has run the dispatches of any entries, in their order, each client of each
-- topic has the latest 200 of what its queue held followed by the entries of its topic that pass
-- its filter, in their order. The queues
-- have at most 200 entries at the start.
pub dispatch_all-latest :
    (t : Topic) (es : List TranscriptEntry) (b : EventBridge)
    → All Bounded (subs t b)
    → subs t (dispatch_all es b) ≡ map (caught_up t es) (subs t b)
unfolding dispatch_all
dispatch_all-latest t [] b h = sym (map-caught_up_nothing t (subs t b) h)
dispatch_all-latest t (e ∷ es) b h =
    let cs = subs t b in
    let step = subs-dispatch t e b in
    let h' : All Bounded (subs t (dispatch e b)) = rw step (map-turn-Bounded t e cs h) in
    dispatch_all-latest t es (dispatch e b) h'
    ∙ ap (map (caught_up t es)) step
    ∙ map-caught_up t e es cs h
