-- ===== src/Sdk/Session.antt =====
-- tools/claude_agent_sdk_tool.py: the stream of one session, what is recorded of it, and the retry
-- of a session that could not be resumed. The entries of a stream are published after the client
-- has worked; nothing that it acts on is published there.
use ai_dev_swarm.Common.{
  ℕ, ◌+◌, ◌==◌, Bool, false, ◌&&◌, List, [], ◌∷◌, Option, none, some, Text, text, text_eq, is_some,
  if◌then◌else◌,
}
use ai_dev_swarm.Schemas.Exceptions.{Exception, foreign, Result, ok}
use ai_dev_swarm.Schemas.Milestone.{Milestone}
use ai_dev_swarm.Store.State.{World, MilestoneSession}
use ai_dev_swarm.Store.Action.{Action, ◌>>=◌, ◌>>◌, pure, throw, gets, on_world, run_world, catch}
use ai_dev_swarm.Store.Tokens.{latest_for}
use ai_dev_swarm.Store.Sessions.{record_session}
use ai_dev_swarm.Spend.{record_spend}
use ai_dev_swarm.Observability.{TranscriptEntry, Publisher}
use ai_dev_swarm.Sdk.Messages.{
  Usage, no_usage, accumulate_usage, ResultMessage, Message, assistant, user, closing,
  other_message, entries_for,
}
use ai_dev_swarm.Sdk.Invocation.{
  Role, role_name, SdkResult, SdkDeps, Options, Stream, model_of, task_prompt, build_options,
  result_from, cost_or_zero, or_text,
}

abbrev pub publish_all : Publisher → List TranscriptEntry → World → World
publish_all publish [] w = w
publish_all publish (e ∷ es) w = publish_all publish es (publish e w)

-- `_publish_message`
unfoldable pub publish_message : SdkDeps → Role → ℕ → Message → Action (Unit {0})
publish_message d role i msg =
    run_world (publish_all d.publish (entries_for d.prices.characters (role_name role) i msg))

-- What `_consume_stream` has gathered.
pub record Consumed : Type 0 where
  pub final : Option ResultMessage
  pub last_session_id : Option Text
  pub partial_usage : Usage

abbrev pub newer_id : Option Text → Option Text → Option Text
newer_id none last = last
newer_id (some []) last = last
newer_id (some (c ∷ s)) last = some (c ∷ s)

-- The loop of `_consume_stream`, which ends at the closing message.
unfoldable pub consume : List Message → Consumed → Consumed
consume [] acc = acc
consume (assistant session_id usage content ∷ msgs) acc = consume msgs (record acc {
  last_session_id = newer_id session_id acc.last_session_id;
  partial_usage = accumulate_usage acc.partial_usage usage;
})
consume (user content ∷ msgs) acc = consume msgs acc
consume (closing final ∷ msgs) acc = record acc { final = some final }
consume (other_message ∷ msgs) acc = consume msgs acc

-- `_consume_stream`
abbrev pub consume_stream : Option Text → List Message → Consumed
consume_stream resume msgs =
    consume msgs (record { final = none; last_session_id = resume; partial_usage = no_usage })

unfoldable pub publish_stream : SdkDeps → Role → ℕ → List Message → Action (Unit {0})
publish_stream d role i [] = pure tt
publish_stream d role i (closing final ∷ msgs) = publish_message d role i (closing final)
publish_stream d role i (msg ∷ msgs) = do publish_message d role i msg; publish_stream d role i msgs

-- `_ledger_usage`
abbrev pub nothing_spent : Option ℕ → Usage → Bool
nothing_spent (some cost) usage = false
nothing_spent none usage =
    usage.input_tokens + usage.cache_creation_input_tokens == 0 && usage.output_tokens == 0

unfoldable pub ledger_usage : SdkDeps → Role → Milestone → Usage → Option ℕ → Action (Unit {0})
ledger_usage d role m usage cost_usd =
    if nothing_spent cost_usd usage
    then pure tt
    else record_spend d.prices (some m.project_id) (some m.id) (role_name role)
        (model_of d.settings role m) (usage.input_tokens + usage.cache_creation_input_tokens)
        usage.output_tokens cost_usd

abbrev pub usage_or_none : Option Usage → Usage
usage_or_none none = no_usage
usage_or_none (some usage) = usage

-- `_ledger_spend`
unfoldable pub ledger_spend : SdkDeps → Role → Milestone → ResultMessage → Action (Unit {0})
ledger_spend d role m final =
    ledger_usage d role m (usage_or_none final.usage) (some (cost_or_zero final.total_cost_usd))

abbrev pub record_if_named : Role → Milestone → Option Text → Action (Unit {0})
record_if_named role m none = pure tt
record_if_named role m (some []) = pure tt
record_if_named role m (some (c ∷ s)) = record_session m.id (role_name role) (c ∷ s) 0 0

-- `_no_result_outcome`
unfoldable pub no_result_outcome :
    SdkDeps → Role → Milestone → Option Text → Usage → Action SdkResult
no_result_outcome d role m last_session_id partial_usage = do
  record_if_named role m last_session_id
  ledger_usage d role m partial_usage none
  pure (record {
    success = false;
    session_id = or_text last_session_id [];
    cost_usd = 0;
    turns = 0;
    summary = text "SDK closed without a ResultMessage";
    failure_reason = some (text "no_result_message");
  })

-- The end of `_arun_session`, on `final`; an exception of the stream comes before a closing message.
abbrev pub conclude :
    SdkDeps
    → Role
    → Milestone
    → Consumed
    → Option ResultMessage
    → Option Exception
    → Action SdkResult
conclude d role m c (some final) failure = do
  record_session m.id (role_name role) final.session_id (cost_or_zero final.total_cost_usd)
      final.num_turns
  ledger_spend d role m final
  pure (result_from final)
conclude d role m c none none = no_result_outcome d role m c.last_session_id c.partial_usage
conclude d role m c none (some e) = throw e

-- The parameters of one call.
pub record Limits : Type 0 where
  pub max_turns : ℕ
  pub max_budget_usd : ℕ
  pub repair_context : Option Text

abbrev pub run_client : SdkDeps → Options → Text → World → Result Stream × World
run_client d options prompt w = let (stream, w') = d.client options prompt w in (ok stream, w')

-- `_arun_session`
unfoldable pub arun_session : SdkDeps → Role → Milestone → Limits → Option Text → Action SdkResult
arun_session d role m limits resume = do
  options ← build_options d role m limits.max_turns limits.max_budget_usd resume
  stream ← on_world (run_client d options (task_prompt d m limits.repair_context (is_some resume)))
  publish_stream d role m.project_id stream.messages
  let consumed = consume_stream resume stream.messages
  conclude d role m consumed consumed.final stream.failure

abbrev pub is_process_error : Exception → Bool
is_process_error (foreign type_name message) = text_eq type_name (text "ProcessError")
is_process_error _ = false

-- `except ProcessError`: only a resumed call is tried again.
abbrev pub retry_fresh :
    SdkDeps → Role → Milestone → Limits → Option Text → Exception → Action SdkResult
retry_fresh d role m limits none e = throw e
retry_fresh d role m limits (some id) e =
    if is_process_error e then arun_session d role m limits none else throw e

abbrev pub resume_id : Option MilestoneSession → Option Text
resume_id none = none
resume_id (some prev) = some prev.session_id

-- `_arun`
unfoldable pub arun : SdkDeps → Role → Milestone → Limits → Action SdkResult
arun d role m limits = do
  prev ← gets (λ s. latest_for m.id (role_name role) s.world)
  catch (arun_session d role m limits (resume_id prev))
      (retry_fresh d role m limits (resume_id prev))

abbrev pub or_default : Option ℕ → ℕ → ℕ
or_default none n = n
or_default (some k) n = k

-- `run_sync`
unfoldable pub run_sync :
    SdkDeps
    → Role
    → Milestone
    → (max_turns max_budget_usd : Option ℕ) → Option Text
    → Action SdkResult
run_sync d role m max_turns max_budget_usd repair_context = arun d role m (record {
  max_turns = or_default max_turns d.settings.sdk_max_turns;
  max_budget_usd = or_default max_budget_usd d.settings.sdk_max_budget_usd;
  repair_context = repair_context;
})
