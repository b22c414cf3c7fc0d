-- ===== src/Store/Action.antt =====
-- A call that reads and writes the shared state and may raise. What was written before a raise
-- stays written: each repository method is a transaction of its own.
pub mod Keeps
pub mod Yields
pub mod Runs
use ai_dev_swarm.Common.{Option, none, some}
use ai_dev_swarm.Schemas.Exceptions.{Exception, Result, ok, raise}
use ai_dev_swarm.Store.State.{State, World, Notice}
use mathlib.Core.List.{◌++◌, ◌∷◌, []}

abbrev pub Action : Type 0 → Type 0
Action A = State → Result A × State

module _ {A : Type 0} where
  unfoldable pub pure : A → Action A
  pure a s = (ok a, s)

  unfoldable pub throw : Exception → Action A
  throw e s = (raise e, s)

  unfoldable pub gets : (State → A) → Action A
  gets f s = (ok (f s), s)

  -- A call that touches no state.
  unfoldable pub lift : Result A → Action A
  lift r s = (r, s)

  -- A call that reads the state, writes nothing, and may raise.
  unfoldable pub query : (State → Result A) → Action A
  query f s = (f s, s)

  -- A call of a crew or a tool.
  unfoldable pub on_world : (World → Result A × World) → Action A
  on_world f s = let (r, w) = f s.world in (r, record s { world = w })

  abbrev pub or_raise : Option A → Exception → Result A
  or_raise none e = raise e
  or_raise (some a) e = ok a

unfoldable pub modify : (State → State) → Action (Unit {0})
modify f s = (ok tt, f s)

-- `telegram.send`
unfoldable pub send : Notice → Action (Unit {0})
send n s = (ok tt, record s { outbox = s.outbox ++ n ∷ [] })

-- A collaborator that never raises.
unfoldable pub run_world : (World → World) → Action (Unit {0})
run_world f s = (ok tt, record s { world = f s.world })

-- What follows a call, on its result.
abbrev pub and_then : {A B : Type 0} → Result A → (A → Action B) → Action B
and_then (ok a) f = f a
and_then (raise e) f = λ s. (raise e, s)

infixl 5 ◌>>=◌ ◌>>◌
unfoldable pub ◌>>=◌ : {A B : Type 0} → Action A → (A → Action B) → Action B
unfolding pure throw gets lift query on_world modify send run_world
◌>>=◌ m f s = let (r, s') = m s in and_then r f s'

abbrev pub ◌>>◌ : {A B : Type 0} → Action A → Action B → Action B
m >> n = m >>= λ _. n

-- `try: m` / `except: handler(exc)`
abbrev pub handle : {A : Type 0} → Result A → (Exception → Action A) → Action A
handle (ok a) h = λ s. (ok a, s)
handle (raise e) h = h e

unfoldable pub catch : {A : Type 0} → Action A → (Exception → Action A) → Action A
catch m h s = let (r, s') = m s in handle r h s'
