-- ===== src/Crews/Replanning.antt =====
-- crews/replanning/crew.py: the action before the next milestone. Parameters: the language models'
-- answer, the repair of its JSON (`loads_lenient`) and its validation (`validate_python`), which may
-- raise, and the template engine. `J` are the values of JSON.
use ai_dev_swarm.Common.{
  ℕ, ◌-◌, List, [], ◌∷◌, ◌++◌, Option, none, some, Text, text, map, take, drop, length, str,
}
use ai_dev_swarm.Settings.{Settings}
use ai_dev_swarm.Schemas.Exceptions.{Result, ok, raise}
use ai_dev_swarm.Schemas.Project.{Project, ProjectState}
use ai_dev_swarm.Schemas.Milestone.{Milestone, MilestoneSpec}
use ai_dev_swarm.Schemas.Replanner.{ReplannerAction, noop, amend, split, escalate}
use ai_dev_swarm.Store.State.{World, MilestoneSession}
use ai_dev_swarm.Store.Action.{Action, ◌>>=◌, ◌>>◌, pure, lift, catch, on_world, run_world}
use ai_dev_swarm.Steering.{pull_unconsumed}
use ai_dev_swarm.Steering.Renderer.{join, format_notes}
use ai_dev_swarm.Spend.{Prices, record_crew_spend}
use ai_dev_swarm.Observability.{Publisher, publish_decision}
use ai_dev_swarm.BuildCrew.{four_decimals}

-- `getattr(crew_output, "raw", crew_output)`: a string, or any other value.
pub data Raw (J : Type 0) : Type 0 where
  words : Text → Raw J
  value : J → Raw J

-- The Architect's answer: its token usage, and its words.
pub record ReplanOutput (J : Type 0) : Type 0 where
  pub usage : Option (ℕ × ℕ)
  pub raw : Raw J

pub record ReplanningDeps (J : Type 0) : Type 0 where
  pub loads_lenient : Text → Result J
  pub validate_python : J → Result ReplannerAction
  pub settings : Settings
  pub prices : Prices
  pub architect_template : Text
  pub pm_template : Text
  pub render : (template steering_notes : Text) → Text
  pub spec_json : MilestoneSpec → Text
  pub publish : Publisher
  pub kickoff :
      (architect_backstory pm_backstory context : Text) → World → Result (ReplanOutput J) × World

-- `_parse`: the `try` covers the repair of the JSON and the validation.
abbrev pub loaded : {J : Type 0} → ReplanningDeps J → Raw J → Result J
loaded d (words t) = d.loads_lenient t
loaded d (value j) = ok j

unfoldable pub parse : {J : Type 0} → ReplanningDeps J → Raw J → Action ReplannerAction
parse d raw =
    catch (do answer ← lift (loaded d raw); lift (d.validate_python answer)) (λ _. pure noop)

-- `_describe_action`
abbrev pub describe_action : ReplannerAction → Text
describe_action noop = text "Noop"
describe_action (amend i patch) = text "Amend"
describe_action (split i into) = text "Split"
describe_action (escalate reason freeze) = text "Escalate — " ++ reason

-- `_summarise_sessions`
abbrev pub session_summary : MilestoneSession → Text
session_summary s =
    text "  - "
    ++ (s.role
        ++ (text ": turns="
            ++ (str s.turns
                ++ (text " cost=$"
                    ++ (four_decimals s.cost_usd ++ (text " session=" ++ take 12 s.session_id))))))

unfoldable pub summarise_sessions : List MilestoneSession → Text
summarise_sessions [] = text "  (none yet)"
summarise_sessions (s ∷ ss) =
    join (text "\n") (map session_summary (drop (length (s ∷ ss) - 6) (s ∷ ss)))

-- `project.state.value`
abbrev pub state_value : ProjectState → Text
state_value ProjectState.queued = text "queued"
state_value ProjectState.planning = text "planning"
state_value ProjectState.awaiting_approval = text "awaiting_approval"
state_value ProjectState.building = text "building"
state_value ProjectState.replanning = text "replanning"
state_value ProjectState.integration = text "integration"
state_value ProjectState.done = text "done"
state_value ProjectState.blocked = text "blocked"
state_value ProjectState.killed = text "killed"

module _ {J : Type 0} (d : ReplanningDeps J) (project : Project) (next : Milestone)
    (recent : List MilestoneSession) where
  -- The `ctx` of `run`.
  unfoldable pub context : Text
  context =
      text "PROJECT: "
      ++ (project.name
          ++ (text " (state="
              ++ (state_value project.state
                  ++ (text ")\nNEXT MILESTONE: "
                      ++ (next.title
                          ++ (text " (retry_count="
                              ++ (str next.retry_count
                                  ++ (text ")\nNEXT SPEC:\n"
                                      ++ (d.spec_json next.spec
                                          ++ (text "\nRECENT SESSIONS:\n"
                                              ++ (summarise_sessions recent ++ text "\n")))))))))))

  abbrev pub backstory : Text → Text → Action Text
  backstory template role = do
    notes ← on_world (pull_unconsumed project.id role)
    pure (d.render template (format_notes d.prices.characters notes))

  -- `crew.kickoff()` under its `try`: `none` is what returns `Noop` at once.
  abbrev pub or_failed : Result (ReplanOutput J) × World → Result (Option (ReplanOutput J)) × World
  or_failed (ok output, w) = (ok (some output), w)
  or_failed (raise e, w) = (ok none, w)

  abbrev pub guarded_kickoff : Text → Text → World → Result (Option (ReplanOutput J)) × World
  guarded_kickoff architect pm w = or_failed (d.kickoff architect pm context w)

  abbrev pub decide : Option (ReplanOutput J) → Action ReplannerAction
  decide none = pure noop
  decide (some output) = do
    record_crew_spend d.prices output.usage (some project.id) (some next.id) (text "replanner")
        d.settings.model_strong
    action ← parse d output.raw
    run_world (
        publish_decision d.publish (some project.id) (text "Architect")
          (text "Replan before '" ++ (next.title ++ (text "': " ++ describe_action action))))
    pure action

  -- `CrewaiReplanningCrew.run`
  unfoldable pub run : Action ReplannerAction
  run = do
    architect ← backstory d.architect_template (text "Architect")
    pm ← backstory d.pm_template (text "PM")
    output ← on_world (guarded_kickoff architect pm)
    decide output
