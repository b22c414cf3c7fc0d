-- ===== src/Sdk/Tests.antt =====
-- The theorems about the SDK's sessions at concrete inputs.
use ai_dev_swarm.Common.{◌≡◌, ◌≢◌, refl, false, [], ◌∷◌, ◌++◌, Text, some, none, text}
use ai_dev_swarm.Schemas.Project.{MilestoneState}
use ai_dev_swarm.Schemas.Exceptions.{ok}
use ai_dev_swarm.Store.Action.{◌>>=◌, catch}
use ai_dev_swarm.Store.Sessions.{record_session}
use ai_dev_swarm.Steering.{pull_unconsumed}
use ai_dev_swarm.Store.State.{State}
use ai_dev_swarm.Store.Tokens.{latest_for}
use ai_dev_swarm.Samples.{ascii, settings, milestone, running, world}
use ai_dev_swarm.Sdk.Messages.{accumulate_usage, assistant, text_block}
use ai_dev_swarm.Sdk.Invocation.{SdkDeps, SdkResult, developer, role_name, build_options}
use ai_dev_swarm.Sdk.Session.{
  Limits, arun_session, publish_stream, publish_message, consume, no_result_outcome, ledger_usage,
  arun, resume_id,
}
use ai_dev_swarm.Sdk.Notes.{with_notes, waiting_bodies, Rendered, second_has_no_notes}
use ai_dev_swarm.Sdk.Resume.{arun-Resumes}

-- A client whose stream ends after one message.
abbrev sdk : SdkDeps
sdk = record {
  settings = settings;
  prices = record { characters = ascii; cost_per_token = λ model prompt completion. none };
  template = λ role. text "You write code.";
  render = λ template notes. template ++ notes;
  spec_json = λ spec. text "{}";
  client = λ options prompt w. (
    record {
      messages = assistant (some (text "abc")) none (text_block (text "Hello") ∷ []) ∷ [];
      failure = none;
    },
    w,
  );
  publish = λ e w. w;
}

abbrev limits : Limits
limits = record { max_turns = 80; max_budget_usd = 50000; repair_context = none }

abbrev lost : SdkResult
lost = record {
  success = false;
  session_id = text "abc";
  cost_usd = 0;
  turns = 0;
  summary = text "SDK closed without a ResultMessage";
  failure_reason = some (text "no_result_message");
}

returns : (arun sdk developer (milestone 11 1 MilestoneState.pending) limits running).0 ≡ ok lost
unfolding arun ◌>>=◌ catch arun_session build_options pull_unconsumed publish_stream publish_message
    consume no_result_outcome record_session ledger_usage accumulate_usage
returns = refl

has_id : lost.session_id ≢ []
has_id e = cc

arun-Resumes_example :
    resume_id (
      latest_for 11
        (role_name developer)
        (arun sdk developer (milestone 11 1 MilestoneState.pending) limits running).1.world)
    ≡ some (text "abc")
arun-Resumes_example =
    arun-Resumes sdk developer (milestone 11 1 MilestoneState.pending) limits running lost
      (λ o p w. refl) (λ e w. refl) tt returns has_id

-- The project that is being built, with a note that waits for every role.
abbrev steered : State
steered = record running {
  world = record world {
    notes =
        record {
          id = 90;
          project_id = 1;
          body = text "Use SQLite.";
          author = text "operator";
          target_role = none;
          created_at = 4000;
        }
        ∷ [];
  };
}

second_has_no_notes_example :
    (shown : Text) × Rendered ascii shown
      (waiting_bodies developer (milestone 11 1 MilestoneState.pending) steered)
    × ((build_options sdk developer
          (milestone 11 1 MilestoneState.pending)
          80
          50000
          (some (text "abc"))
          steered).0
        ≡ ok (
            with_notes sdk developer
              (milestone 11 1 MilestoneState.pending)
              80
              50000
              (some (text "abc"))
              shown))
    × ((build_options sdk developer
          (milestone 11 1 MilestoneState.pending)
          80
          50000
          none
          (build_options sdk developer
            (milestone 11 1 MilestoneState.pending)
            80
            50000
            (some (text "abc"))
            steered).1).0
        ≡ ok (with_notes sdk developer (milestone 11 1 MilestoneState.pending) 80 50000 none []))
second_has_no_notes_example =
    second_has_no_notes sdk developer (milestone 11 1 MilestoneState.pending) 80 50000
      (some (text "abc")) steered
