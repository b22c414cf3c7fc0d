-- ===== src/Common/Decimal.antt =====
-- Python's `str(n)` for a number that is not negative.
use Prim.Native.Nat.{ℕ, zero, suc, ◌+◌, ◌*◌, ◌/◌, ◌%◌, ◌≤◌, ◌-◌}
use mathlib.Core.Path.{◌≡◌, refl}
use mathlib.Core.Logic.{inl, inr}
use mathlib.Core.List.{[], ◌∷◌, ◌++◌}
use native.Mathlib.Omega.{arith}
use ai_dev_swarm.Common.Tests.{ltb, if◌then◌else◌, Bool-cases}
use ai_dev_swarm.Common.Texts.{Text}

-- The digits, on fuel; `n` itself is enough, since each step divides by ten.
abbrev pub digits : ℕ → ℕ → Text
digits zero n = (48 + n) ∷ []
digits (suc fuel) n =
    let rest = digits fuel (n / 10) in
    if ltb n 10 then (48 + n) ∷ [] else rest ++ ((48 + n % 10) ∷ [])

abbrev pub str : ℕ → Text
str n = digits n n

-- The number that a text of digits stands for.
abbrev pub value_from : ℕ → Text → ℕ
value_from acc [] = acc
value_from acc (c ∷ t) = value_from (acc * 10 + (c - 48)) t

value_from-snoc :
    (s : Text) (acc c : ℕ) → value_from acc (s ++ c ∷ []) ≡ value_from acc s * 10 + (c - 48)
value_from-snoc [] acc c = refl
value_from-snoc (x ∷ s) acc c = value_from-snoc s (acc * 10 + (x - 48)) c

value_from-digits : (fuel n : ℕ) → n ≤ fuel → value_from 0 (digits fuel n) ≡ n
value_from-digits zero n h = omega arith
value_from-digits (suc fuel) n h = elim (Bool-cases (ltb n 10)) [
  | inl e ↦ rw e (omega arith)
  | inr e ↦
      let big : 10 ≤ n = ground arith in
      let ih = value_from-digits fuel (n / 10) (omega arith) in
      rw (e, value_from-snoc (digits fuel (n / 10)) 0 (48 + n % 10), ih) (omega arith)
]

-- The digits of a number stand for it.
pub value_from-str : (n : ℕ) → value_from 0 (str n) ≡ n
value_from-str n = value_from-digits n n (omega arith)
