-- ===== src/Store/Action/Keeps.antt =====
-- What a call leaves alone, and how it may change the state of one project: a rule for each way
-- to build a call.
use ai_dev_swarm.Common.{Bool, true, false, List, if◌then◌else◌}
use ai_dev_swarm.Schemas.Exceptions.{Exception, Result, ok, raise}
use ai_dev_swarm.Store.State.{State, World, Notice}
use ai_dev_swarm.Store.Action.{
  Action, pure, throw, gets, lift, query, on_world, send, run_world, and_then, ◌>>=◌, handle, catch,
}
use mathlib.Core.List.{◌++◌, ◌∷◌, []}

-- A relation between the state before a call and the state after it, that calls can be chained by.
pub record Rel : Type 1 where
  pub holds : State → State → Type 0
  pub same : (s : State) → holds s s
  pub chain : (s t u : State) → holds s t → holds t u → holds s u
  pub world : (s : State) (w : World) → holds s (record s { world = w })
  pub outbox : (s : State) (o : List Notice) → holds s (record s { outbox = o })

-- `m` changes the state only as `R` allows, whether it returns or raises.
pub record Keeps {A : Type 0} (R : Rel) (m : Action A) : Type 0 where
  pub at : (s : State) → R.holds s (m s).1

module _ {A : Type 0} {R : Rel} where
  pub Keeps-pure : (a : A) → Keeps R (pure a)
  unfolding pure
  Keeps-pure a = record { at = R.same }

  pub Keeps-throw : (e : Exception) → Keeps R (throw {A = A} e)
  unfolding throw
  Keeps-throw e = record { at = R.same }

  pub Keeps-gets : (f : State → A) → Keeps R (gets f)
  unfolding gets
  Keeps-gets f = record { at = R.same }

  pub Keeps-lift : (r : Result A) → Keeps R (lift r)
  unfolding lift
  Keeps-lift r = record { at = R.same }

  pub Keeps-query : (f : State → Result A) → Keeps R (query f)
  unfolding query
  Keeps-query f = record { at = R.same }

  pub Keeps-on_world : (f : World → Result A × World) → Keeps R (on_world f)
  unfolding on_world
  Keeps-on_world f = record { at = λ s. R.world s (f s.world).1 }

  pub Keeps-if : (b : Bool) (m n : Action A) → Keeps R m → Keeps R n → Keeps R (if b then m else n)
  Keeps-if true m n km kn = km
  Keeps-if false m n km kn = kn

module _ {R : Rel} where
  pub Keeps-send : (n : Notice) → Keeps R (send n)
  unfolding send
  Keeps-send n = record { at = λ s. R.outbox s (s.outbox ++ n ∷ []) }

  pub Keeps-run_world : (f : World → World) → Keeps R (run_world f)
  unfolding run_world
  Keeps-run_world f = record { at = λ s. R.world s (f s.world) }

module _ {A B : Type 0} {R : Rel} where
  pub Keeps-and_then :
      (r : Result A) (f : A → Action B)
      → ((a : A) → Keeps R (f a))
      → (s : State) → R.holds s (and_then r f s).1
  Keeps-and_then (ok a) f kf s = (kf a).at s
  Keeps-and_then (raise e) f kf s = R.same s

  pub Keeps-bind :
      (m : Action A) (f : A → Action B) → Keeps R m → ((a : A) → Keeps R (f a)) → Keeps R (m >>= f)
  unfolding ◌>>=◌
  Keeps-bind m f km kf = record {
    at = λ s. R.chain s (m s).1 _ (km.at s) (Keeps-and_then (m s).0 f kf (m s).1);
  }

module _ {A : Type 0} {R : Rel} where
  Keeps-handle :
      (r : Result A) (h : Exception → Action A)
      → ((e : Exception) → Keeps R (h e))
      → (s : State) → R.holds s (handle r h s).1
  Keeps-handle (ok a) h kh s = R.same s
  Keeps-handle (raise e) h kh s = (kh e).at s

  pub Keeps-catch :
      (m : Action A) (h : Exception → Action A)
      → Keeps R m
      → ((e : Exception) → Keeps R (h e))
      → Keeps R (catch m h)
  unfolding catch
  Keeps-catch m h km kh = record {
    at = λ s. R.chain s (m s).1 _ (km.at s) (Keeps-handle (m s).0 h kh (m s).1);
  }

pub ruleset keeps_rules = (
  Keeps-pure, Keeps-throw, Keeps-gets, Keeps-lift, Keeps-query, Keeps-on_world, Keeps-if,
  Keeps-send, Keeps-run_world, Keeps-bind, Keeps-catch,
)
