-- ===== src/SettingsStore/Tests.antt =====
-- The theorems about the settings at concrete inputs.
use ai_dev_swarm.Common.{◌≡◌, refl, false, [], ◌∷◌, some, none, text, pos}
use ai_dev_swarm.Settings.{integer, float, nan}
use ai_dev_swarm.Schemas.Exceptions.{ok}
use ai_dev_swarm.Samples.{ascii}
use ai_dev_swarm.SettingsStore.{
  Numbers, EditableSetting, int, real, number, coerce, coerce_numeric, get_spec, editable_settings,
  is_editable, apply_all,
}
use ai_dev_swarm.SettingsStore.Validation.{Valid, coerce-Valid, nan_passes, apply_all-protects}

-- Parsers that read every text as 7, and as no number.
abbrev numbers : Numbers
numbers = record { parse_int = λ t. some (pos 7); parse_float = λ t. some nan }

abbrev rounds : EditableSetting
rounds = number (text "ideation_max_rounds") int 1

abbrev cap : EditableSetting
cap = number (text "max_project_cost_usd") real 0

accepts_7 : coerce ascii numbers rounds (text " 7") ≡ ok (integer (pos 7))
unfolding coerce coerce_numeric
accepts_7 = refl

coerce-Valid_example : Valid rounds int (integer (pos 7))
coerce-Valid_example = coerce-Valid ascii numbers rounds (text " 7") (integer (pos 7)) accepts_7

nan_passes_example : coerce ascii numbers cap (text "nan") ≡ ok (float nan)
nan_passes_example = nan_passes ascii numbers cap (text "nan") refl refl

token_is_fixed : is_editable (text "github_token") ≡ false
unfolding is_editable get_spec editable_settings
token_is_fixed = refl

apply_all-protects_example :
    apply_all ascii numbers ((text "github_token", text "x") ∷ []) (λ k. none) (text "github_token")
    ≡ none
apply_all-protects_example =
    apply_all-protects ascii numbers ((text "github_token", text "x") ∷ []) (λ k. none)
      (text "github_token") token_is_fixed
