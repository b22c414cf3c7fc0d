-- ===== src/SettingsStore/Validation.antt =====
-- Which values an operator's override can give to a setting.
use ai_dev_swarm.Common.{
  ℕ, ◌≤◌, ◌≡◌, refl, ◌∙◌, true, false, List, [], ◌∷◌, Option, none, some, Text, text_eq, any, ℤ,
  pos, negsuc, arith, Bool-cases, ◌⊎◌, inl, inr,
}
use ai_dev_swarm.Settings.{Float, nan, SettingValue, integer, float, boolean, choice}
use ai_dev_swarm.Slugs.{Characters, strip_spaces}
use ai_dev_swarm.Schemas.Exceptions.{Result, ok, raise}
use ai_dev_swarm.SettingsStore.{
  SettingKind, int, real, bool, enum, EditableSetting, Numbers, an_int, a_float, below, above,
  breaks, check_range, coerce_bool, coerce_enum, coerce_numeric, parsed, coerce_by, coerce, Live,
  set_coerced, get_spec, is_editable, override_by, apply_override, apply_all,
}

-- `lo <= z`, and `z <= hi`, where there is a bound.
abbrev pub AtLeast : Option ℕ → ℤ → Type 0
AtLeast none z = Unit
AtLeast (some lo) (pos n) = lo ≤ n
AtLeast (some lo) (negsuc n) = ⊥

abbrev pub AtMost : Option ℕ → ℤ → Type 0
AtMost none z = Unit
AtMost (some hi) (pos n) = n ≤ hi
AtMost (some hi) (negsuc n) = Unit

-- The values that a setting may have: one of its kind, and within its bounds or choices. Of a
-- float it is only said that it is a float.
abbrev pub Valid : EditableSetting → SettingKind → SettingValue → Type 0
Valid spec int (integer z) = AtLeast spec.minimum z × AtMost spec.maximum z
Valid spec real (float x) = Unit
Valid spec bool (boolean b) = Unit
Valid spec enum (choice t) = any (text_eq t) spec.choices ≡ true
Valid spec _ _ = ⊥

at_least : (z : ℤ) (b : Option ℕ) → breaks (below (an_int z)) b ≡ false → AtLeast b z
at_least z none h = tt
at_least (pos n) (some lo) h = ground arith
at_least (negsuc n) (some lo) h = cc

at_most : (z : ℤ) (b : Option ℕ) → breaks (above (an_int z)) b ≡ false → AtMost b z
at_most z none h = tt
at_most (pos n) (some hi) h = ground arith
at_most (negsuc n) (some hi) h = tt

check_int :
    (spec : EditableSetting) (z : ℤ) (v : SettingValue)
    → check_range spec (some (an_int z)) ≡ ok v
    → (v ≡ integer z) × AtLeast spec.minimum z × AtMost spec.maximum z
check_int spec z v e =
    let low : breaks (below (an_int z)) spec.minimum ≡ false = ground arith in
    let high : breaks (above (an_int z)) spec.maximum ≡ false = ground arith in
    (ground arith, at_least z spec.minimum low, at_most z spec.maximum high)

coerce_by-Valid :
    (ch : Characters) (num : Numbers) (spec : EditableSetting) (kind : SettingKind) (t : Text)
    (v : SettingValue)
    → spec.kind ≡ kind
    → coerce_by ch num spec kind t ≡ ok v
    → Valid spec kind v
unfolding coerce_bool coerce_enum coerce_numeric
coerce_by-Valid ch num spec bool t (boolean b) k e = tt
coerce_by-Valid ch num spec bool t (integer z) k e = absurd (ground arith)
coerce_by-Valid ch num spec bool t (float x) k e = absurd (ground arith)
coerce_by-Valid ch num spec bool t (choice c) k e = absurd (ground arith)
coerce_by-Valid ch num spec enum t (choice c) k e = ground arith
coerce_by-Valid ch num spec enum t (integer z) k e = absurd (ground arith)
coerce_by-Valid ch num spec enum t (float x) k e = absurd (ground arith)
coerce_by-Valid ch num spec enum t (boolean b) k e = absurd (ground arith)
coerce_by-Valid ch num spec int t v k e = checked_int (num.parse_int t) (rw k at e)
  where
    checked_int : (o : Option ℤ) → check_range spec (parsed an_int o) ≡ ok v → Valid spec int v
    checked_int none h = cc
    checked_int (some z) h = let r = check_int spec z v h in rw r.0 (r.1, r.2)
coerce_by-Valid ch num spec real t v k e = checked_real (num.parse_float t) (rw k at e)
  where
    checked_real :
        (o : Option Float) → check_range spec (parsed a_float o) ≡ ok v → Valid spec real v
    checked_real none h = cc
    checked_real (some x) h = let r : v ≡ float x = ground arith in rw r tt

-- A value that is accepted for a setting is valid for it: of its kind, an integer within both
-- bounds, a choice among the choices.
pub coerce-Valid :
    (ch : Characters) (num : Numbers) (spec : EditableSetting) (raw : Text) (v : SettingValue)
    → coerce ch num spec raw ≡ ok v
    → Valid spec spec.kind v
unfolding coerce
coerce-Valid ch num spec raw v e =
    coerce_by-Valid ch num spec spec.kind (strip_spaces ch raw) v refl e

-- The range check lets a float through that is not a number, whatever the bounds.
pub nan_passes :
    (ch : Characters) (num : Numbers) (spec : EditableSetting) (raw : Text)
    → spec.kind ≡ real
    → num.parse_float (strip_spaces ch raw) ≡ some nan
    → coerce ch num spec raw ≡ ok (float nan)
unfolding coerce coerce_numeric
nan_passes ch num spec raw k h = rw (k, h) (at_bounds spec.minimum spec.maximum)
  where
    at_bounds :
        (lo hi : Option ℕ)
        → check_range (record spec { minimum = lo; maximum = hi }) (some (a_float nan))
          ≡ ok (float nan)
    at_bounds none none = refl
    at_bounds none (some hi) = refl
    at_bounds (some lo) none = refl
    at_bounds (some lo) (some hi) = refl

text_eq→eq : (s t : Text) → text_eq s t ≡ true → s ≡ t
text_eq→eq [] [] h = refl
text_eq→eq [] (_ ∷ _) h = cc
text_eq→eq (_ ∷ _) [] h = cc
text_eq→eq (a ∷ s) (b ∷ t) h = ground (arith, text_eq→eq s t)

-- `apply_override` of one key leaves the value of every other.
override_others :
    (ch : Characters) (num : Numbers) (key raw other : Text) (live : Live)
    → text_eq key other ≡ false
    → (apply_override ch num key raw live).1 other ≡ live other
unfolding apply_override
override_others ch num key raw other live h = by (get_spec key)
  where
    set : (r : Result SettingValue) → (set_coerced key r live).1 other ≡ live other
    set (ok v) = rw h refl
    set (raise e) = refl

    by : (o : Option EditableSetting) → (override_by ch num o key raw live).1 other ≡ live other
    by none = refl
    by (some spec) = set (coerce ch num spec raw)

-- Restoring the saved overrides at a start never sets an attribute that is not in the table of
-- editable settings, whatever rows the database holds.
pub apply_all-protects :
    (ch : Characters) (num : Numbers) (rows : List (Text × Text)) (live : Live) (key : Text)
    → is_editable key ≡ false
    → apply_all ch num rows live key ≡ live key
unfolding apply_all
apply_all-protects ch num [] live key h = refl
apply_all-protects ch num ((k, raw) ∷ rows) live key h = elim (Bool-cases (is_editable k)) [
  | inl e ↦ rw e (
      apply_all-protects ch num rows (apply_override ch num k raw live).1 key h
      ∙ override_others ch num k raw key live (other_key e (Bool-cases (text_eq k key))))
  | inr e ↦ rw e (apply_all-protects ch num rows live key h)
]
  where
    other_key :
        is_editable k ≡ true
        → (text_eq k key ≡ true) ⊎ (text_eq k key ≡ false)
        → text_eq k key ≡ false
    other_key e (inl same) =
        let eq = text_eq→eq k key same in let bad : is_editable k ≡ false = rw eq h in cc
    other_key e (inr differ) = differ
