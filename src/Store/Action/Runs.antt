-- ===== src/Store/Action/Runs.antt =====
-- One run of a call: from the state in which it begins to the one in which it returns. A run of a
-- call that is made of others is a chain of their runs.
use ai_dev_swarm.Common.{◌≡◌, refl, ap, ◌∙◌, Bool, true, false, ◌⊎◌, inl, inr, if◌then◌else◌}
use ai_dev_swarm.Schemas.Exceptions.{Exception, Result, ok, raise}
use ai_dev_swarm.Store.State.{State}
use ai_dev_swarm.Store.Action.{Action, pure, throw, gets, query, and_then, ◌>>=◌, handle, catch}

-- `m`, called in `s`, returns `a` and leaves `t`.
abbrev pub Runs : {A : Type 0} → Action A → State → A → State → Type 0
Runs m s a t = m s ≡ (ok a, t)

-- `m`, called in `s`, raises `e` and leaves `t`.
abbrev pub Fails : {A : Type 0} → Action A → State → Exception → State → Type 0
Fails m s e t = m s ≡ (raise e, t)

module _ {A : Type 0} where
  pub to_Runs : (m : Action A) (s : State) (a : A) → (m s).0 ≡ ok a → Runs m s a (m s).1
  to_Runs m s a e = ap (λ r. (r, (m s).1)) e

  pub pure-Runs : (a b : A) (s t : State) → Runs (pure a) s b t → (a ≡ b) × (s ≡ t)
  unfolding pure
  pure-Runs a b s t e = (cc, cc)

  pub pure-Fails : (a : A) (e : Exception) (s t : State) → ¬ (Fails (pure a) s e t)
  unfolding pure
  pure-Fails a e s t h = cc

  pub throw-Runs : (e : Exception) (b : A) (s t : State) → ¬ (Runs (throw e) s b t)
  unfolding throw
  throw-Runs e b s t h = cc

  pub gets-Runs : (f : State → A) (b : A) (s t : State) → Runs (gets f) s b t → (f s ≡ b) × (s ≡ t)
  unfolding gets
  gets-Runs f b s t e = (cc, cc)

  pub query-Runs :
      (f : State → Result A) (b : A) (s t : State) → Runs (query f) s b t → (f s ≡ ok b) × (s ≡ t)
  unfolding query
  query-Runs f b s t e = (cc, cc)

  pub if-Runs :
      (b : Bool) (m n : Action A) (s : State) (a : A) (t : State)
      → Runs (if b then m else n) s a t
      → ((b ≡ true) × Runs m s a t) ⊎ ((b ≡ false) × Runs n s a t)
  if-Runs true m n s a t r = inl (refl, r)
  if-Runs false m n s a t r = inr (refl, r)

  handle-Runs :
      (r : Result A) (u : State) (h : Exception → Action A) (b : A) (t : State)
      → handle r h u ≡ (ok b, t)
      → ((r ≡ ok b) × (u ≡ t)) ⊎ ((e : Exception) × (r ≡ raise e) × Runs (h e) u b t)
  handle-Runs (ok a) u h b t k = inl (cc, cc)
  handle-Runs (raise e) u h b t k = inr (e, refl, k)

  -- A `try` returns what its body returns, or what the handler of its exception does.
  pub catch-Runs :
      (m : Action A) (h : Exception → Action A) (s : State) (b : A) (t : State)
      → Runs (catch m h) s b t
      → Runs m s b t ⊎ ((e : Exception) × (u : State) × Fails m s e u × Runs (h e) u b t)
  unfolding catch
  catch-Runs m h s b t k = elim (handle-Runs (m s).0 (m s).1 h b t k) [
    | inl (e, f) ↦ inl (to_Runs m s b e ∙ ap (λ u. (ok b, u)) f)
    | inr (x, e, f) ↦ inr (x, (m s).1, ap (λ r. (r, (m s).1)) e, f)
  ]

module _ {A B : Type 0} where
  and_then-Runs :
      (r : Result A) (f : A → Action B) (s : State) (b : B) (t : State)
      → and_then r f s ≡ (ok b, t)
      → (a : A) × (r ≡ ok a) × Runs (f a) s b t
  and_then-Runs (ok a) f s b t e = (a, refl, e)
  and_then-Runs (raise x) f s b t e = cc

  -- A chain returns when its first call does, and the rest does from there.
  pub bind-Runs :
      (m : Action A) (f : A → Action B) (s : State) (b : B) (t : State)
      → Runs (m >>= f) s b t
      → (a : A) × (u : State) × Runs m s a u × Runs (f a) u b t
  unfolding ◌>>=◌
  bind-Runs m f s b t e =
      let (a, h, k) = and_then-Runs (m s).0 f (m s).1 b t e in (a, (m s).1, to_Runs m s a h, k)

  and_then-Fails :
      (r : Result A) (f : A → Action B) (s : State) (e : Exception) (t : State)
      → and_then r f s ≡ (raise e, t)
      → ((r ≡ raise e) × (s ≡ t)) ⊎ ((a : A) × (r ≡ ok a) × Fails (f a) s e t)
  and_then-Fails (ok a) f s e t h = inr (a, refl, h)
  and_then-Fails (raise x) f s e t h = inl (cc, cc)

  -- A chain fails when its first call does, or when the rest does from where that ends.
  pub bind-Fails :
      (m : Action A) (f : A → Action B) (s : State) (e : Exception) (t : State)
      → Fails (m >>= f) s e t
      → Fails m s e t ⊎ ((a : A) × (u : State) × Runs m s a u × Fails (f a) u e t)
  unfolding ◌>>=◌
  bind-Fails m f s e t h = elim (and_then-Fails (m s).0 f (m s).1 e t h) [
    | inl (k, l) ↦ inl (ap (λ r. (r, (m s).1)) k ∙ ap (λ u. (raise e, u)) l)
    | inr (a, k, l) ↦ inr (a, (m s).1, to_Runs m s a k, l)
  ]
