-- ===== src/Common/Texts.antt =====
-- Python strings as lists of code points.
use Prim.Native.Nat.{ℕ}
use Prim.Native.Char.{code}
use Prim.Native.String.{String}
use mathlib.Core.Path.{◌≡◌, refl}
use mathlib.Core.Bool.{Bool, true, false, ◌&&◌, ◌||◌}
use mathlib.Core.List.{List, [], ◌∷◌, ◌++◌}
use native.Mathlib.Omega.{arith}
use ai_dev_swarm.Common.Tests.{◌==◌, ==_self}

abbrev pub Text : Type 0
Text = List ℕ

-- A literal.
abbrev pub text : String → Text
text String.[] = []
text (String.◌∷◌ c s) = code c ∷ text s

abbrev pub text_eq : Text → Text → Bool
text_eq [] [] = true
text_eq [] (_ ∷ _) = false
text_eq (_ ∷ _) [] = false
text_eq (a ∷ s) (b ∷ t) = a == b && text_eq s t

-- `s.startswith(p)`
abbrev pub starts_with : Text → Text → Bool
starts_with [] s = true
starts_with (a ∷ p) [] = false
starts_with (a ∷ p) (b ∷ s) = a == b && starts_with p s

-- `p in s`
abbrev pub contains : Text → Text → Bool
contains p [] = starts_with p []
contains p (b ∷ s) = starts_with p (b ∷ s) || contains p s

pub starts_with-append : (p s : Text) → starts_with p (p ++ s) ≡ true
starts_with-append [] s = refl
starts_with-append (a ∷ p) s = ground (arith, starts_with-append p s, ==_self a)

pub contains-of-starts_with : (p s : Text) → starts_with p s ≡ true → contains p s ≡ true
contains-of-starts_with p [] h = h
contains-of-starts_with p (b ∷ s) h = ground arith

pub contains-append_left : (p s t : Text) → contains p t ≡ true → contains p (s ++ t) ≡ true
contains-append_left p [] t h = h
contains-append_left p (a ∷ s) t h = ground (arith, contains-append_left p s t h)

-- A text contains each of its middle parts.
pub contains-middle : (s p t : Text) → contains p (s ++ (p ++ t)) ≡ true
contains-middle s p t =
    contains-append_left p s (p ++ t) (contains-of-starts_with p (p ++ t) (starts_with-append p t))

pub text_eq_self : (t : Text) → text_eq t t ≡ true
text_eq_self [] = refl
text_eq_self (c ∷ t) = ground (arith, ==_self c, text_eq_self t)
