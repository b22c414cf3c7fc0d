-- ===== src/BuildCrew/Tests.antt =====
-- The theorems about the build crew at concrete inputs.
use ai_dev_swarm.Common.{◌≡◌, refl, true, false, [], ◌∷◌, ◌++◌, Text, some, none, text, pos}
use ai_dev_swarm.Schemas.Project.{MilestoneState}
use ai_dev_swarm.Schemas.Exceptions.{ok}
use ai_dev_swarm.Samples.{ascii, settings, milestone, running, built}
use ai_dev_swarm.Budget.{can_spend}
use ai_dev_swarm.Observability.{publish_decision}
use ai_dev_swarm.Spend.{record_spend, record_crew_spend}
use ai_dev_swarm.Steering.{pull_unconsumed, candidates}
use ai_dev_swarm.Store.Action.{pure, gets, ◌>>=◌, catch, query, on_world, run_world, modify}
use ai_dev_swarm.Store.Sessions.{record_session}
use ai_dev_swarm.Store.Tokens.{record_tokens, daily_total_tokens, milestone_total_tokens}
use ai_dev_swarm.Sdk.Session.{
  run_sync, arun, arun_session, publish_stream, publish_message, consume, ledger_spend,
  ledger_usage,
}
use ai_dev_swarm.Sandbox.{SandboxRun}
use ai_dev_swarm.Sdk.Messages.{closing, entries_for}
use ai_dev_swarm.Sdk.Invocation.{SdkDeps, build_options, result_from, task_prompt, repair_intro}
use ai_dev_swarm.BuildCrew.{
  BuildDeps, run, emit, ensure_budget, review, run_reviewer, extract, ci_repair_context,
}
use ai_dev_swarm.BuildCrew.Evidence.{Approved}
use ai_dev_swarm.BuildCrew.Gate.{run-Approved}
use ai_dev_swarm.BuildCrew.Repair.{Reported, Ends, repair_prompt}

-- A client that succeeds at once, a gate that passes, and a reviewer that approves when asked again.
abbrev sdk : SdkDeps
sdk = record {
  settings = settings;
  prices = record { characters = ascii; cost_per_token = λ model prompt completion. none };
  template = λ role. text "You write code.";
  render = λ template notes. template ++ notes;
  spec_json = λ spec. text "{}";
  client = λ options prompt w. (
    record {
      messages =
          closing (record {
            session_id = text "abc";
            total_cost_usd = some 20;
            num_turns = 2;
            is_error = false;
            stop_reason = none;
            errors = [];
            subtype = text "success";
            result = some (text "done");
            usage = none;
          })
          ∷ [];
      failure = none;
    },
    w,
  );
  publish = λ e w. w;
}

abbrev crew : BuildDeps
crew = record {
  sdk = sdk;
  workspace_root = text "/ws";
  sandbox = λ ws. pure (record { passed = true; stdout = []; stderr = []; exit_code = pos 0 });
  reviewer_template = text "You review.";
  repr = λ t. t;
  reviewer =
      λ backstory ctx w. (ok (record { usage = none; pydantic = none; validated = some built }), w);
}

approves : (run crew (milestone 11 1 MilestoneState.pending) running).0 ≡ ok built
unfolding run emit ◌>>=◌ catch query on_world run_world modify run_sync arun arun_session
    build_options pull_unconsumed candidates publish_stream publish_message consume ledger_spend
    ledger_usage record_session record_spend record_tokens result_from ensure_budget can_spend
    daily_total_tokens milestone_total_tokens review run_reviewer extract record_crew_spend
    publish_decision pure gets entries_for
approves = refl

run-Approved_example : Approved crew (milestone 11 1 MilestoneState.pending) running built
run-Approved_example =
    run-Approved crew (milestone 11 1 MilestoneState.pending) running built approves refl

abbrev silent : SandboxRun
silent = record { passed = false; stdout = text "  "; stderr = []; exit_code = pos 2 }

repair_prompt_example :
    (said context : Text) × Reported ascii silent said
    × Ends said context
    × (task_prompt sdk
          (milestone 11 1 MilestoneState.pending)
          (some (ci_repair_context ascii silent))
          true
        ≡ repair_intro
          ++ (context
              ++ (text "\n\nMilestone for reference: "
                  ++ (milestone 11 1 MilestoneState.pending).title)))
repair_prompt_example = repair_prompt sdk (milestone 11 1 MilestoneState.pending) true silent
