-- ===== src/Sdk/Invocation.antt =====
-- tools/claude_agent_sdk_tool.py: one invocation, from the options to the recorded session. The
-- tool is built with every optional collaborator, as the process start builds it.
use ai_dev_swarm.Common.{
  ℕ, ◌==◌, ltb, Bool, true, false, List, [], ◌∷◌, ◌++◌, Option, none, some, Text, text, map,
  if◌then◌else◌,
}
use ai_dev_swarm.Settings.{Settings}
use ai_dev_swarm.Schemas.Exceptions.{Exception, Result, ok, raise}
use ai_dev_swarm.Schemas.Milestone.{Milestone, MilestoneSpec}
use ai_dev_swarm.Store.State.{World}
use ai_dev_swarm.Store.Action.{Action, ◌>>=◌, pure, on_world}
use ai_dev_swarm.Steering.{pull_unconsumed}
use ai_dev_swarm.Steering.Renderer.{join, format_notes}
use ai_dev_swarm.Spend.{Prices}
use ai_dev_swarm.Observability.{Publisher}
use ai_dev_swarm.Sdk.Messages.{ResultMessage, Message}

-- The two subclasses.
pub data Role : Type 0 where
  developer tester : Role

abbrev pub role_name : Role → Text
role_name developer = text "Developer"
role_name tester = text "Tester"

abbrev pub allowed_tools : Role → List Text
allowed_tools developer =
    text "Read" ∷ text "Write" ∷ text "Edit" ∷ text "Glob" ∷ text "Grep" ∷ text "Bash" ∷ []
allowed_tools tester =
    text "Read"
    ∷ text "Write"
    ∷ text "Edit"
    ∷ text "Glob"
    ∷ text "Grep"
    ∷ text "Bash(pytest:*)"
    ∷ text "Bash(ruff:*)"
    ∷ []

-- `_DISALLOWED_TOOLS`
abbrev pub disallowed_tools : List Text
disallowed_tools = text "WebFetch" ∷ text "WebSearch" ∷ []

pub record SdkResult : Type 0 where
  pub success : Bool
  pub session_id : Text
  pub cost_usd : ℕ
  pub turns : ℕ
  pub summary : Text
  pub failure_reason : Option Text

-- `ClaudeAgentOptions`; `hook` runs before each use of a tool, and may hand the agent a message.
pub record Options : Type 0 where
  pub system_prompt : Text
  pub allowed : List Text
  pub disallowed : List Text
  pub max_turns : ℕ
  pub max_budget_usd : ℕ
  pub resume : Option Text
  pub model : Text
  pub hook : World → Result (Option Text) × World

-- What the client sends, and the exception that ends it before its end, if one does.
pub record Stream : Type 0 where
  pub messages : List Message
  pub failure : Option Exception

pub record SdkDeps : Type 0 where
  pub settings : Settings
  pub prices : Prices
  pub template : Role → Text
  pub render : (template steering_notes : Text) → Text
  pub spec_json : MilestoneSpec → Text
  pub client : Options → (prompt : Text) → World → Stream × World
  pub publish : Publisher

-- `raw.split("/", 1)[-1]`
abbrev pub slash : ℕ
slash = b'/'

unfoldable pub after_slash : Text → Option Text
after_slash [] = none
after_slash (c ∷ s) = let rest = after_slash s in if c == slash then some s else rest

abbrev pub unless_none : Option Text → Text → Text
unless_none none t = t
unless_none (some s) t = s

-- The tier of the role, and the escalation of the developer's.
abbrev pub raw_model : Settings → Role → ℕ → Text
raw_model c developer retry_count = if ltb 0 retry_count then c.model_strong else c.model_dev
raw_model c tester retry_count = c.model_fast

-- `_model`
unfoldable pub model_of : Settings → Role → Milestone → Text
model_of c role m = let raw = raw_model c role m.retry_count in unless_none (after_slash raw) raw

-- `task_prompt`
abbrev pub resumed_prefix : Bool → Text
resumed_prefix true =
    text "You have a PARTIAL prior attempt at this milestone: your session is"
    ++ (text " resumed and your earlier work is already on disk. CONTINUE from where"
        ++ text " you left off — inspect what exists first, don't restart from scratch.\n\n")
resumed_prefix false = []

abbrev pub milestone_prompt : SdkDeps → Milestone → Bool → Text
milestone_prompt d m resumed =
    resumed_prefix resumed
    ++ (text "Milestone: "
        ++ (m.title
            ++ (text "\nAcceptance criteria + technical note:\n"
                ++ (d.spec_json m.spec
                    ++ (text "\n\nWork in the current directory; the previous milestones' code"
                        ++ (text " is already on disk. Stop when the milestone's acceptance"
                            ++ text " criteria are met."))))))

abbrev pub repair_intro : Text
repair_intro =
    text "The CI gate just FAILED for this milestone. The code on disk does"
    ++ (text " not pass lint / type-check / tests. Fix EXACTLY the errors below"
        ++ (text " — make the smallest change that turns CI green — then stop. Do"
            ++ text " not start new work.\n\nPREVIOUS CI FAILURE:\n"))

unfoldable pub task_prompt : SdkDeps → Milestone → Option Text → Bool → Text
task_prompt d m none resumed = milestone_prompt d m resumed
task_prompt d m (some []) resumed = milestone_prompt d m resumed
task_prompt d m (some (c ∷ context)) resumed =
    repair_intro ++ ((c ∷ context) ++ (text "\n\nMilestone for reference: " ++ m.title))

-- `_build_hooks`: the message of `_inject`, if notes wait.
abbrev pub injected : Result (List Text) × World → Result (Option Text) × World
injected (raise e, w) = (raise e, w)
injected (ok [], w) = (ok none, w)
injected (ok (note ∷ notes), w) = (
  ok (
      some (
        text "## Mid-flight steering from the operator\n"
        ++ (join (text "\n") (map (λ n. text "- " ++ n) (note ∷ notes))
            ++ text "\nApply these on your next step."))),
  w,
)

unfoldable pub inject : Role → ℕ → World → Result (Option Text) × World
inject role project_id w = injected (pull_unconsumed project_id (role_name role) w)

-- `build_options`, which pulls the notes that wait for the role.
unfoldable pub build_options : SdkDeps → Role → Milestone → ℕ → ℕ → Option Text → Action Options
build_options d role m max_turns max_budget_usd resume = do
  notes ← on_world (pull_unconsumed m.project_id (role_name role))
  pure (record {
    system_prompt = d.render (d.template role) (format_notes d.prices.characters notes);
    allowed = allowed_tools role;
    disallowed = disallowed_tools;
    max_turns = max_turns;
    max_budget_usd = max_budget_usd;
    resume = resume;
    model = model_of d.settings role m;
    hook = inject role m.project_id;
  })

-- `a or b`, for an optional text
abbrev pub or_text : Option Text → Text → Text
or_text none t = t
or_text (some []) t = t
or_text (some (c ∷ s)) t = c ∷ s

-- `_result_from`
abbrev pub stop_bit : Option Text → List Text → List Text
stop_bit none bits = bits
stop_bit (some []) bits = bits
stop_bit (some (c ∷ s)) bits = (text "stop_reason=" ++ (c ∷ s)) ∷ bits

abbrev pub errors_bit : List Text → List Text → List Text
errors_bit [] bits = bits
errors_bit (e ∷ es) bits = (text "errors=" ++ join (text "; ") (e ∷ es)) ∷ bits

abbrev pub failure_of : ResultMessage → Text
failure_of final =
    join (text " | ") (
      stop_bit final.stop_reason
        (errors_bit final.errors ((text "subtype=" ++ final.subtype) ∷ [])))

abbrev pub cost_or_zero : Option ℕ → ℕ
cost_or_zero none = 0
cost_or_zero (some cost) = cost

unfoldable pub result_from : ResultMessage → SdkResult
result_from final = record {
  success = if final.is_error then false else true;
  session_id = final.session_id;
  cost_usd = cost_or_zero final.total_cost_usd;
  turns = final.num_turns;
  summary = or_text final.result (or_text final.stop_reason final.subtype);
  failure_reason = if final.is_error then some (failure_of final) else none;
}
