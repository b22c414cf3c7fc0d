-- ===== src/Store/Action/Yields.antt =====
-- What a call returns, when it returns: a rule for each way to build a call.
use ai_dev_swarm.Common.{◌≡◌, Bool, true, false, if◌then◌else◌}
use ai_dev_swarm.Schemas.Exceptions.{Exception, Result, ok, raise}
use ai_dev_swarm.Store.State.{State}
use ai_dev_swarm.Store.Action.{Action, pure, throw, and_then, ◌>>=◌, handle, catch}

-- Each value that `m` returns is as `P` says.
pub record Yields {A : Type 0} (P : A → Type 0) (m : Action A) : Type 0 where
  pub at : (s : State) (a : A) → (m s).0 ≡ ok a → P a

ok-injective : {A : Type 0} (P : A → Type 0) {a b : A} → P a → ok a ≡ ok b → P b
ok-injective {A} P {a} {b} h e = let same : a ≡ b = cc in rw same at h

module _ {A : Type 0} {P : A → Type 0} where
  pub Yields-pure : (a : A) → P a → Yields P (pure a)
  unfolding pure
  Yields-pure a h = record { at = λ s b e. ok-injective P h e }

  pub Yields-throw : (e : Exception) → Yields P (throw e)
  unfolding throw
  Yields-throw e = record { at = λ s b h. cc }

  pub Yields-if :
      (b : Bool) (m n : Action A) → Yields P m → Yields P n → Yields P (if b then m else n)
  Yields-if true m n ym yn = ym
  Yields-if false m n ym yn = yn

  Yields-handle :
      (r : Result A) (h : Exception → Action A) (s : State) (a : A)
      → ((b : A) → r ≡ ok b → P b)
      → ((e : Exception) → Yields P (h e))
      → (handle r h s).0 ≡ ok a
      → P a
  Yields-handle (ok b) h s a yr yh e = yr a e
  Yields-handle (raise x) h s a yr yh e = (yh x).at s a e

  pub Yields-catch :
      (m : Action A) (h : Exception → Action A)
      → Yields P m
      → ((e : Exception) → Yields P (h e))
      → Yields P (catch m h)
  unfolding catch
  Yields-catch m h ym yh = record {
    at = λ s a e. Yields-handle (m s).0 h (m s).1 a (λ b. ym.at s b) yh e;
  }

module _ {A B : Type 0} {P : B → Type 0} where
  Yields-and_then :
      (r : Result A) (f : A → Action B) (s : State) (b : B)
      → ((a : A) → Yields P (f a))
      → (and_then r f s).0 ≡ ok b
      → P b
  Yields-and_then (ok a) f s b yf e = (yf a).at s b e
  Yields-and_then (raise x) f s b yf e = cc

  pub Yields-bind :
      (m : Action A) (f : A → Action B) → ((a : A) → Yields P (f a)) → Yields P (m >>= f)
  unfolding ◌>>=◌
  Yields-bind m f yf = record { at = λ s b e. Yields-and_then (m s).0 f (m s).1 b yf e }

pub ruleset yields_rules = (Yields-pure, Yields-throw, Yields-if, Yields-catch, Yields-bind)
