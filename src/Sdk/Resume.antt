-- ===== src/Sdk/Resume.antt =====
-- What an invocation leaves for the next attempt.
use ai_dev_swarm.Common.{
  ℕ, ◌≡◌, ◌≢◌, refl, sym, ◌∙◌, ap, List, [], ◌∷◌, Option, none, some, Text, Bool-cases, inl, inr,
}
use ai_dev_swarm.Schemas.Exceptions.{Exception, Result, ok, raise}
use ai_dev_swarm.Schemas.Milestone.{Milestone}
use ai_dev_swarm.Store.State.{State, World}
use ai_dev_swarm.Store.Action.{
  Action, ◌>>=◌, ◌>>◌, pure, throw, gets, modify, catch, handle, and_then,
}
use ai_dev_swarm.Store.Tokens.{latest_for, record_tokens}
use ai_dev_swarm.Store.Sessions.{record_session}
use ai_dev_swarm.Store.Sessions.Latest.{Older, latest_for-record_session}
use ai_dev_swarm.Spend.{record_spend}
use ai_dev_swarm.Observability.{TranscriptEntry}
use ai_dev_swarm.Sdk.Messages.{
  Usage, ResultMessage, Message, assistant, user, closing, other_message, entries_for,
}
use ai_dev_swarm.Sdk.Invocation.{
  Role, role_name, SdkResult, SdkDeps, Options, build_options, result_from,
}
use ai_dev_swarm.Sdk.Session.{
  publish_all, publish_message, publish_stream, Consumed, consume_stream, nothing_spent,
  ledger_usage, ledger_spend, no_result_outcome, conclude, Limits, arun_session, is_process_error,
  retry_fresh, resume_id, arun,
}
use ai_dev_swarm.Sdk.Aged.{
  sessions-pull_unconsumed, pure-Aged, on_world-Aged, run_world-Aged, bind-Aged, Aged,
}

module _ (d : SdkDeps) (role : Role) (m : Milestone) where
  -- The next attempt resumes the session of the result, if the result has one.
  abbrev pub Resumes : SdkResult → State → Type 0
  Resumes r t =
      r.session_id ≢ [] → resume_id (latest_for m.id (role_name role) t.world) ≡ some r.session_id

  Post : Result SdkResult × State → Type 0
  Post (ok r, t) = Resumes r t
  Post (raise e, t) = Older t

  and_then-Post :
      {A : Type 0} (r : Result A) (f : A → Action SdkResult) (t : State)
      → Older t
      → ((a : A) → Post (f a t))
      → Post (and_then r f t)
  unfolding Post
  and_then-Post (ok a) f t h k = k a
  and_then-Post (raise e) f t h k = h

  bind-Post :
      {A : Type 0} (n : Action A) (f : A → Action SdkResult) (s : State)
      → Aged n
      → Older s
      → ((a : A) (t : State) → Older t → Post (f a t))
      → Post ((n >>= f) s)
  unfolding ◌>>=◌
  bind-Post n f s aged h k =
      let h' = aged.at s h in and_then-Post (n s).0 f (n s).1 h' (λ a. k a (n s).1 h')

  -- The ledger writes no session, and never raises.
  ledger_usage-then :
      (usage : Usage) (cost : Option ℕ) (r : SdkResult) (s : State)
      → Resumes r s
      → Post ((ledger_usage d role m usage cost >> pure r) s)
  unfolding ledger_usage record_spend modify record_tokens pure ◌>>=◌ Post latest_for
  ledger_usage-then usage cost r s h = elim (Bool-cases (nothing_spent cost usage)) [
    | inl e ↦ rw e h
    | inr e ↦ rw e h
  ]

  recorded :
      (session_id : Text) (cost turns : ℕ) (n : Action SdkResult) (s : State)
      → Older s
      → ((t : State)
          → resume_id (latest_for m.id (role_name role) t.world) ≡ some session_id
          → Post (n t))
      → Post ((record_session m.id (role_name role) session_id cost turns >> n) s)
  unfolding record_session ◌>>=◌
  recorded session_id cost turns n s h k =
      k _ (ap resume_id (latest_for-record_session s m.id (role_name role) session_id cost turns h))

  no_result_outcome-Post :
      (id : Option Text) (usage : Usage) (s : State)
      → Older s
      → Post (no_result_outcome d role m id usage s)
  unfolding no_result_outcome pure ◌>>=◌
  no_result_outcome-Post none usage s h = ledger_usage-then usage none _ s (λ k. absurd (k refl))
  no_result_outcome-Post (some []) usage s h =
      ledger_usage-then usage none _ s (λ k. absurd (k refl))
  no_result_outcome-Post (some (c ∷ id)) usage s h =
      recorded (c ∷ id) 0 0 _ s h (λ t e. ledger_usage-then usage none _ t (λ _. e))

  conclude-Post :
      (c : Consumed) (final : Option ResultMessage) (failure : Option Exception) (s : State)
      → Older s
      → Post (conclude d role m c final failure s)
  unfolding ledger_spend result_from throw Post
  conclude-Post c (some final) failure s h =
      recorded final.session_id _ _ _ s h
        (λ t e. ledger_usage-then _ _ (result_from final) t (λ _. e))
  conclude-Post c none none s h = no_result_outcome-Post c.last_session_id c.partial_usage s h
  conclude-Post c none (some e) s h = h

module _ (d : SdkDeps) (role : Role) (m : Milestone)
    (client_keeps : (o : Options) (prompt : Text) (w : World)
      → (d.client o prompt w).1.sessions ≡ w.sessions)
    (publish_keeps : (e : TranscriptEntry) (w : World)
      → (d.publish e w).sessions ≡ w.sessions) where
  sessions-publish_all :
      (es : List TranscriptEntry) (w : World) → (publish_all d.publish es w).sessions ≡ w.sessions
  sessions-publish_all [] w = refl
  sessions-publish_all (e ∷ es) w = sessions-publish_all es (d.publish e w) ∙ publish_keeps e w

  publish_message-Aged : (i : ℕ) (msg : Message) → Aged (publish_message d role i msg)
  unfolding publish_message
  publish_message-Aged i msg =
      run_world-Aged _
        (sessions-publish_all (entries_for d.prices.characters (role_name role) i msg))

  publish_stream-Aged : (i : ℕ) (msgs : List Message) → Aged (publish_stream d role i msgs)
  unfolding publish_stream
  publish_stream-Aged i [] = pure-Aged tt
  publish_stream-Aged i (closing final ∷ msgs) = publish_message-Aged i (closing final)
  publish_stream-Aged i (assistant id usage content ∷ msgs) =
      bind-Aged _ _ (publish_message-Aged i _) (λ _. publish_stream-Aged i msgs)
  publish_stream-Aged i (user content ∷ msgs) =
      bind-Aged _ _ (publish_message-Aged i _) (λ _. publish_stream-Aged i msgs)
  publish_stream-Aged i (other_message ∷ msgs) =
      bind-Aged _ _ (publish_message-Aged i _) (λ _. publish_stream-Aged i msgs)

  build_options-Aged :
      (turns cost : ℕ) (resume : Option Text) → Aged (build_options d role m turns cost resume)
  unfolding build_options
  build_options-Aged turns cost resume =
      bind-Aged _ _ (on_world-Aged _ (sessions-pull_unconsumed m.project_id (role_name role)))
        (λ notes. pure-Aged _)

  arun_session-Post :
      (limits : Limits) (resume : Option Text) (s : State)
      → Older s
      → Post d role m (arun_session d role m limits resume s)
  unfolding arun_session
  arun_session-Post limits resume s h =
      bind-Post d role m _ _ s (build_options-Aged _ _ resume) h (λ options t k.
        bind-Post d role m _ _ t (on_world-Aged _ (client_keeps options _)) k (λ stream u l.
          bind-Post d role m _ _ u (publish_stream-Aged m.project_id stream.messages) l (λ _ v o.
            conclude-Post d role m (consume_stream resume stream.messages) _ stream.failure v o)))

  retry_fresh-Post :
      (limits : Limits) (resume : Option Text) (e : Exception) (s : State)
      → Older s
      → Post d role m (retry_fresh d role m limits resume e s)
  unfolding throw Post
  retry_fresh-Post limits none e s h = h
  retry_fresh-Post limits (some id) e s h = elim (Bool-cases (is_process_error e)) [
    | inl k ↦ rw k (arun_session-Post limits none s h)
    | inr k ↦ rw k h
  ]

  handle-Post :
      (limits : Limits) (resume : Option Text) (r : Result SdkResult) (s : State)
      → Post d role m (r, s)
      → Post d role m (handle r (retry_fresh d role m limits resume) s)
  unfolding Post
  handle-Post limits resume (ok r) s h = h
  handle-Post limits resume (raise e) s h = retry_fresh-Post limits resume e s h

  arun-Post : (limits : Limits) (s : State) → Older s → Post d role m (arun d role m limits s)
  unfolding arun gets catch ◌>>=◌
  arun-Post limits s h =
      let resume = resume_id (latest_for m.id (role_name role) s.world) in
      handle-Post limits resume _ _ (arun_session-Post limits resume s h)

ok-Post :
    (d : SdkDeps) (role : Role) (m : Milestone) (p : Result SdkResult × State) (r : SdkResult)
    → p.0 ≡ ok r
    → Post d role m p
    → Resumes d role m r p.1
unfolding Post
ok-Post d role m (ok q, t) r e h = let same : q ≡ r = cc in rw (sym same) h
ok-Post d role m (raise x, t) r e h = cc

-- When an invocation returns, whether it succeeded, failed, or lost its stream before the closing
-- message, and whether or not it resumed a session or fell back to a fresh one, the next attempt at
-- this milestone by this role resumes the session of its result, if that has an id. The conditions:
-- the recorded sessions finished no later than now and have smaller ids than the next, and the
-- client and the transcript write no session row.
pub arun-Resumes :
    (d : SdkDeps) (role : Role) (m : Milestone) (limits : Limits) (s : State) (r : SdkResult)
    → ((o : Options) (prompt : Text) (w : World) → (d.client o prompt w).1.sessions ≡ w.sessions)
    → ((e : TranscriptEntry) (w : World) → (d.publish e w).sessions ≡ w.sessions)
    → Older s
    → (arun d role m limits s).0 ≡ ok r
    → r.session_id ≢ []
    → resume_id (latest_for m.id (role_name role) (arun d role m limits s).1.world)
      ≡ some r.session_id
arun-Resumes d role m limits s r ck pk h e =
    ok-Post d role m (arun d role m limits s) r e (arun-Post d role m ck pk limits s h)
