-- ===== src/SettingsStore.antt =====
-- db/settings_store.py: the settings that an operator may change at run time. The labels, groups
-- and help texts of the table only reach the user interface, and are left out.
pub mod Validation
mod Tests
use ai_dev_swarm.Common.{
  ℕ, suc, ◌*◌, ◌==◌, ltb, leb, Bool, true, false, ◌||◌, ◌&&◌, List, [], ◌∷◌, Option, none, some,
  Text, text, text_eq, any, find, ℤ, pos, negsuc, is_some, if◌then◌else◌,
}
use ai_dev_swarm.Settings.{
  Float, finite, nan, infinity, neg_infinity, SettingValue, integer, float, boolean, choice,
}
use ai_dev_swarm.Slugs.{Characters, lower_text, strip_spaces}
use ai_dev_swarm.Schemas.Exceptions.{Result, ok, raise, value_error, foreign}

pub data SettingKind : Type 0 where
  int real bool enum : SettingKind

pub record EditableSetting : Type 0 where
  pub key : Text
  pub kind : SettingKind
  pub restart_required : Bool
  pub minimum : Option ℕ
  pub maximum : Option ℕ
  pub choices : List Text

abbrev pub number : Text → SettingKind → ℕ → EditableSetting
number key kind least = record {
  key = key;
  kind = kind;
  restart_required = false;
  minimum = some least;
  maximum = none;
  choices = [];
}

abbrev pub sandbox_modes : List Text
sandbox_modes = text "docker" ∷ text "subprocess" ∷ text "inmemory" ∷ []

-- `EDITABLE_SETTINGS`
unfoldable pub editable_settings : List EditableSetting
editable_settings =
    number (text "daily_token_budget") int 0
    ∷ number (text "per_milestone_token_budget") int 0
    ∷ record {
      key = text "require_approval";
      kind = bool;
      restart_required = false;
      minimum = none;
      maximum = none;
      choices = [];
    }
    ∷ number (text "milestone_retry_limit") int 1
    ∷ record {
      key = text "build_concurrency";
      kind = int;
      restart_required = true;
      minimum = some 1;
      maximum = none;
      choices = [];
    }
    ∷ record {
      key = text "sandbox_mode";
      kind = enum;
      restart_required = true;
      minimum = none;
      maximum = none;
      choices = sandbox_modes;
    }
    ∷ record {
      key = text "ideation_min_score";
      kind = int;
      restart_required = false;
      minimum = some 0;
      maximum = some 100;
      choices = [];
    }
    ∷ number (text "ideation_max_rounds") int 1
    ∷ number (text "auto_split_max_turns") int 1
    ∷ number (text "auto_split_max_cost_usd") real 0
    ∷ number (text "consolidation_every") int 1
    ∷ number (text "max_project_milestones") int 0
    ∷ number (text "max_project_cost_usd") real 0
    ∷ number (text "sdk_max_turns") int 1
    ∷ number (text "sdk_max_budget_usd") real 0
    ∷ number (text "ci_repair_attempts") int 0
    ∷ number (text "tester_max_turns") int 1
    ∷ []

unfoldable pub get_spec : Text → Option EditableSetting
get_spec key = find (λ spec. text_eq spec.key key) editable_settings

unfoldable pub is_editable : Text → Bool
is_editable key = is_some (get_spec key)

-- Python's `int(text)` and `float(text)`; `none` where they raise `ValueError`.
pub record Numbers : Type 0 where
  pub parse_int : Text → Option ℤ
  pub parse_float : Text → Option Float

-- A number that `_coerce_numeric` has parsed.
pub data Parsed : Type 0 where
  an_int : ℤ → Parsed
  a_float : Float → Parsed

-- `value < bound` for a bound that is a natural number. Every comparison with NaN is false.
abbrev pub below : Parsed → ℕ → Bool
below (an_int (pos n)) bound = ltb n bound
below (an_int (negsuc n)) bound = true
below (a_float (finite (pos n) d)) bound = ltb n (bound * suc d)
below (a_float (finite (negsuc n) d)) bound = true
below (a_float nan) bound = false
below (a_float infinity) bound = false
below (a_float neg_infinity) bound = true

-- `value > bound`
abbrev pub above : Parsed → ℕ → Bool
above (an_int (pos n)) bound = ltb bound n
above (an_int (negsuc n)) bound = false
above (a_float (finite (pos n) d)) bound = ltb (bound * suc d) n
above (a_float (finite (negsuc n) d)) bound = false
above (a_float nan) bound = false
above (a_float infinity) bound = true
above (a_float neg_infinity) bound = false

abbrev pub to_value : Parsed → SettingValue
to_value (an_int n) = integer n
to_value (a_float x) = float x

abbrev pub breaks : (ℕ → Bool) → Option ℕ → Bool
breaks test none = false
breaks test (some bound) = test bound

unfoldable pub coerce_bool : Characters → Text → Result SettingValue
coerce_bool ch t =
    let low = lower_text ch t in
    if any (text_eq low) (text "true" ∷ text "1" ∷ text "yes" ∷ text "on" ∷ [])
    then ok (boolean true)
    else if any (text_eq low) (text "false" ∷ text "0" ∷ text "no" ∷ text "off" ∷ [])
    then ok (boolean false)
    else raise (value_error (text "expected a boolean"))

unfoldable pub coerce_enum : EditableSetting → Text → Result SettingValue
coerce_enum spec t =
    if any (text_eq t) spec.choices
    then ok (choice t)
    else raise (value_error (text "must be one of the choices"))

abbrev pub check_range : EditableSetting → Option Parsed → Result SettingValue
check_range spec none = raise (value_error (text "expected a number"))
check_range spec (some value) =
    if breaks (below value) spec.minimum
    then raise (value_error (text "must be >= the minimum"))
    else if breaks (above value) spec.maximum
    then raise (value_error (text "must be <= the maximum"))
    else ok (to_value value)

abbrev pub parsed {ℓ} : {A : Type ℓ} → (A → Parsed) → Option A → Option Parsed
parsed f none = none
parsed f (some a) = some (f a)

abbrev pub parse_number : Numbers → SettingKind → Text → Option Parsed
parse_number num int t = parsed an_int (num.parse_int t)
parse_number num _ t = parsed a_float (num.parse_float t)

unfoldable pub coerce_numeric : Numbers → EditableSetting → Text → Result SettingValue
coerce_numeric num spec t = check_range spec (parse_number num spec.kind t)

abbrev pub coerce_by :
    Characters → Numbers → EditableSetting → SettingKind → Text → Result SettingValue
coerce_by ch num spec bool t = coerce_bool ch t
coerce_by ch num spec enum t = coerce_enum spec t
coerce_by ch num spec _ t = coerce_numeric num spec t

-- `coerce`
unfoldable pub coerce : Characters → Numbers → EditableSetting → Text → Result SettingValue
coerce ch num spec raw = coerce_by ch num spec spec.kind (strip_spaces ch raw)

-- The live settings object: `getattr` of a key, and `setattr`.
abbrev pub Live : Type 0
Live = Text → Option SettingValue

abbrev pub set_attribute : Text → SettingValue → Live → Live
set_attribute key value live k = if text_eq key k then some value else live k

abbrev pub set_coerced : Text → Result SettingValue → Live → Result SettingValue × Live
set_coerced key (ok value) live = (ok value, set_attribute key value live)
set_coerced key (raise e) live = (raise e, live)

abbrev pub override_by :
    Characters → Numbers → Option EditableSetting → Text → Text → Live → Result SettingValue × Live
override_by ch num none key raw live = (raise (foreign (text "KeyError") key), live)
override_by ch num (some spec) key raw live = set_coerced key (coerce ch num spec raw) live

-- `apply_override`; a key with no entry is a `KeyError`, which the callers rule out.
unfoldable pub apply_override :
    Characters → Numbers → Text → Text → Live → Result SettingValue × Live
apply_override ch num key raw live = override_by ch num (get_spec key) key raw live

-- `apply_all`: a malformed row is skipped.
unfoldable pub apply_all : Characters → Numbers → List (Text × Text) → Live → Live
apply_all ch num [] live = live
apply_all ch num ((key, raw) ∷ rows) live =
    apply_all ch num rows (if is_editable key then (apply_override ch num key raw live).1 else live)
