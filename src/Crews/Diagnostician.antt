-- ===== src/Crews/Diagnostician.antt =====
-- crews/diagnostician.py: the remediation of a failed build. The language model and the printing of
-- a spec as JSON are parameters.
use ai_dev_swarm.Common.{ℕ, [], ◌∷◌, ◌++◌, Option, none, some, Text, text, take}
use ai_dev_swarm.Settings.{Settings}
use ai_dev_swarm.Slugs.{strip_spaces}
use ai_dev_swarm.Schemas.Exceptions.{Result}
use ai_dev_swarm.Schemas.Project.{Project}
use ai_dev_swarm.Schemas.Milestone.{Milestone, MilestoneSpec}
use ai_dev_swarm.Store.State.{World}
use ai_dev_swarm.Store.Action.{Action, ◌>>=◌, ◌>>◌, pure, on_world, run_world, catch}
use ai_dev_swarm.Steering.{add_note}
use ai_dev_swarm.Spend.{Prices, record_crew_spend}
use ai_dev_swarm.Observability.{Publisher, publish_decision}

-- The model's answer: its token usage, and its text, if it has one.
pub record Diagnosis : Type 0 where
  pub usage : Option (ℕ × ℕ)
  pub raw : Option Text

pub record DiagnosticianDeps : Type 0 where
  pub settings : Settings
  pub prices : Prices
  pub spec_json : MilestoneSpec → Text
  pub publish : Publisher
  pub kickoff : (context : Text) → World → Result Diagnosis × World

-- `_MAX_REMEDIATION_CHARS`
abbrev pub max_remediation_chars : ℕ
max_remediation_chars = 600

module _ (d : DiagnosticianDeps) (project : Project) (m : Milestone) where
  -- The `ctx` of `diagnose`.
  abbrev pub failure_context : Text → Text
  failure_context failure_reason =
      text "A milestone build just FAILED its quality gate.\nMILESTONE: "
      ++ (m.title
          ++ (text "\nSPEC:\n"
              ++ (take 1500 (d.spec_json m.spec)
                  ++ (text "\nFAILURE (CI / reviewer output, tail):\n"
                      ++ (take 1500 failure_reason ++ text "\n")))))

  abbrev pub raw_text : Option Text → Text
  raw_text none = []
  raw_text (some t) = t

  -- `_run`
  unfoldable pub run_model : Text → Action Text
  run_model ctx = do
    result ← on_world (d.kickoff ctx)
    record_crew_spend d.prices result.usage (some project.id) (some m.id) (text "Diagnostician")
        d.settings.model_fast
    pure (raw_text result.raw)

  abbrev pub note_body : Text → Text
  note_body remediation =
      text "[Diagnostician] Last attempt at '" ++ (m.title ++ (text "' failed. " ++ remediation))

  -- The end of `diagnose`, on the remediation as it was cut.
  abbrev pub steer : Text → Action (Option Text)
  steer [] = pure none
  steer (c ∷ remediation) = do
    catch
        (add_note d.prices.characters project.id (note_body (c ∷ remediation))
            (text "diagnostician") none
          >> pure tt)
        (λ e. pure tt)
    run_world (
        publish_decision d.publish (some project.id) (text "Diagnostician")
          (text "Root-cause for '" ++ (m.title ++ (text "': " ++ (c ∷ remediation)))))
    pure (some (c ∷ remediation))

  abbrev pub some_of : Action Text → Action (Option Text)
  some_of n = do t ← n; pure (some t)

  abbrev pub on_remediation : Option Text → Action (Option Text)
  on_remediation none = pure none
  on_remediation (some t) = steer (take max_remediation_chars (strip_spaces d.prices.characters t))

  -- `diagnose`
  unfoldable pub diagnose : Text → Action (Option Text)
  diagnose failure_reason = do
    remediation ← catch (some_of (run_model (failure_context failure_reason))) (λ e. pure none)
    on_remediation remediation
