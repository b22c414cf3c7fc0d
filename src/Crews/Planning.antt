-- ===== src/Crews/Planning.antt =====
-- crews/planning/crew.py: from a project's spec to the specs of its milestones. Parameters: the
-- language models' answer, after the repair of its JSON and the validation of each entry, the
-- template engine, and the printing of a spec as JSON.
use ai_dev_swarm.Common.{
  ℕ, ltb, List, [], ◌∷◌, ◌++◌, Option, none, some, Text, text, map, take, length, str,
  if◌then◌else◌,
}
use ai_dev_swarm.Settings.{Settings}
use ai_dev_swarm.Schemas.Exceptions.{Result, value_error}
use ai_dev_swarm.Schemas.Project.{ProjectSpec}
use ai_dev_swarm.Schemas.Milestone.{MilestoneSpec}
use ai_dev_swarm.Store.State.{World}
use ai_dev_swarm.Store.Action.{Action, ◌>>=◌, ◌>>◌, pure, throw, on_world, run_world}
use ai_dev_swarm.Steering.{pull_unconsumed}
use ai_dev_swarm.Steering.Renderer.{join, format_notes}
use ai_dev_swarm.Spend.{Prices, record_crew_spend}
use ai_dev_swarm.Observability.{Publisher, publish_decision}

-- The Architect's answer: its token usage, and the milestones if it is an object, with `none` for
-- an entry that validation refuses.
pub record PlanOutput : Type 0 where
  pub usage : Option (ℕ × ℕ)
  pub entries : Option (List (Option MilestoneSpec))

pub record PlanningDeps : Type 0 where
  pub settings : Settings
  pub prices : Prices
  pub pm_template : Text
  pub arch_template : Text
  pub render : (template steering_notes : Text) → Text
  pub publish : Publisher
  pub kickoff :
      (pm_backstory arch_backstory : Text) → ProjectSpec → World → Result PlanOutput × World

-- `_parse_specs`
abbrev pub keep_spec : Option MilestoneSpec → List MilestoneSpec → List MilestoneSpec
keep_spec none out = out
keep_spec (some spec) out = spec ∷ out

unfoldable pub keep_specs : List (Option MilestoneSpec) → List MilestoneSpec
keep_specs [] = []
keep_specs (e ∷ es) = keep_spec e (keep_specs es)

abbrev pub parse_specs : Option (List (Option MilestoneSpec)) → List MilestoneSpec
parse_specs none = []
parse_specs (some es) = keep_specs es

abbrev pub plan_text : ProjectSpec → List MilestoneSpec → Text
plan_text spec specs =
    text "Decomposed '"
    ++ (spec.title
        ++ (text "' into "
            ++ (str (length specs)
                ++ (text " milestones: "
                    ++ (join (text ", ") (map (λ m. m.title) (take 8 specs))
                        ++ (if ltb 8 (length specs) then text "…" else []))))))

module _ (d : PlanningDeps) (project_id : ℕ) (spec : ProjectSpec) where
  abbrev pub backstory : Text → Text → Action Text
  backstory template role = do
    notes ← on_world (pull_unconsumed project_id role)
    pure (d.render template (format_notes d.prices.characters notes))

  -- The end of `run`, on the milestones that were parsed.
  abbrev pub publish_plan : List MilestoneSpec → Action (List MilestoneSpec)
  publish_plan [] = throw (value_error (text "planning crew produced zero parseable milestones"))
  publish_plan (m ∷ ms) =
      run_world (publish_decision d.publish (some project_id) (text "PM") (plan_text spec (m ∷ ms)))
      >> pure (m ∷ ms)

  -- `CrewaiPlanningCrew.run`
  unfoldable pub run : Action (List MilestoneSpec)
  run = do
    pm_backstory ← backstory d.pm_template (text "PM")
    arch_backstory ← backstory d.arch_template (text "Architect")
    output ← on_world (d.kickoff pm_backstory arch_backstory spec)
    record_crew_spend d.prices output.usage (some project_id) none (text "planning")
        d.settings.model_strong
    publish_plan (parse_specs output.entries)
