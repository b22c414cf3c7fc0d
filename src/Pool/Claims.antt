-- ===== src/Pool/Claims.antt =====
-- No two workers ever run a tick of the same project, and no claim outlives its tick.
use ai_dev_swarm.Common.{
  ℕ, ◌==◌, ◌≡◌, refl, sym, ◌∙◌, ap, true, false, not, ◌&&◌, List, [], ◌∷◌, Option, none, some, ◌⊎◌,
  inl, inr, ltb, Bool-cases, ==→eq, arith,
}
use ai_dev_swarm.Schemas.Project.{Project}
use ai_dev_swarm.Schemas.Exceptions.{Result, ok, raise}
use ai_dev_swarm.Store.State.{State}
use ai_dev_swarm.Pool.{
  ErrorText, ProjectPool, in_claimed, discard, pick, claim, claim_next, finish, note_result,
  handle_crash, back_off, clear_transient, gather_candidates, is_transient_error, streak,
  max_transient_fails,
}
use ai_dev_swarm.Pool.Workers.{Workers, Event, starts, ends, turn, run, idle, begin, end, set_held}

-- The claimed ids are exactly the held ones, and no two workers hold the same id.
pub record Exclusive (ws : Workers) : Type 0 where
  pub held_is_claimed :
      (w : ℕ) (p : Project) → ws.held w ≡ some p → in_claimed p.id ws.pool.claimed ≡ true
  pub claimed_is_held :
      (i : ℕ)
      → in_claimed i ws.pool.claimed ≡ true
      → (w : ℕ) × (p : Project) × (ws.held w ≡ some p) × (p.id ≡ i)
  pub apart :
      (v w : ℕ) (p q : Project) → ws.held v ≡ some p → ws.held w ≡ some q → p.id ≡ q.id → v ≡ w

idle-Exclusive : Exclusive idle
idle-Exclusive = record {
  held_is_claimed = λ w p h. cc;
  claimed_is_held = λ i h. cc;
  apart = λ v w p q h k e. cc;
}

pick-free :
    (now : ℕ) (pool : ProjectPool) (ps : List Project) (p : Project)
    → pick now pool ps ≡ some p
    → in_claimed p.id pool.claimed ≡ false
unfolding pick
pick-free now pool [] p e = cc
pick-free now pool (q ∷ ps) p e = ground (arith, pick-free now pool ps p)

in_claimed-discard :
    (i j : ℕ) (xs : List ℕ) → in_claimed i (discard j xs) ≡ (in_claimed i xs && not (i == j))
in_claimed-discard i j [] = refl
in_claimed-discard i j (x ∷ xs) = ground (arith, in_claimed-discard i j xs)

note_result-claimed :
    (et : ErrorText) (now : ℕ) (p : Project) (r : Result (Option Project)) (pool : ProjectPool)
    (s : State)
    → (note_result et now p r pool s).1.claimed ≡ pool.claimed
unfolding handle_crash back_off clear_transient
note_result-claimed et now p (ok o) pool s = refl
note_result-claimed et now p (raise exc) pool s =
    elim (Bool-cases (is_transient_error et exc && ltb (streak p pool) max_transient_fails)) [
      | inl h ↦ rw h
      | inr h ↦ rw h
    ]

finish-claimed :
    (et : ErrorText) (now : ℕ) (p : Project) (r : Result (Option Project)) (pool : ProjectPool)
    (s : State)
    → (finish et now p r pool s).1.claimed ≡ discard p.id pool.claimed
unfolding finish
finish-claimed et now p r pool s = ap (discard p.id) (note_result-claimed et now p r pool s)

begin-Exclusive :
    (w now : ℕ) (s : State) (ws : Workers)
    → Exclusive ws
    → (o : Option Project) → ws.held w ≡ o
    → Exclusive (begin w o (claim_next now ws.pool s) ws)
unfolding claim_next
begin-Exclusive w now s ws inv (some p) h = inv
begin-Exclusive w now s ws inv none h =
    take_on (pick now ws.pool (gather_candidates s))
      (λ p e. pick-free now ws.pool (gather_candidates s) p e)
  where
    take_on :
        (o : Option Project)
        → ((p : Project) → o ≡ some p → in_claimed p.id ws.pool.claimed ≡ false)
        → Exclusive (begin w none (o, claim o ws.pool) ws)
    take_on none free = record {
      held_is_claimed = λ v p k. ground (arith, inv.held_is_claimed v p);
      claimed_is_held = λ i k. keep i (inv.claimed_is_held i k);
      apart = λ u v p q hu hv e. ground (arith, inv.apart u v p q);
    }
      where
        keep :
            (i : ℕ)
            → (v : ℕ) × (p : Project) × (ws.held v ≡ some p) × (p.id ≡ i)
            → (v : ℕ) × (p : Project) × (set_held w none ws.held v ≡ some p) × (p.id ≡ i)
        keep i (v, p, k, e) = (v, p, ground arith, e)
    take_on (some p) free = record {
      held_is_claimed = λ v q k. ground (arith, inv.held_is_claimed v q);
      claimed_is_held = λ i k. holder i k (Bool-cases (p.id == i));
      apart = λ u v q r hu hv e.
          ground (
            arith,
            free p refl,
            inv.held_is_claimed u q,
            inv.held_is_claimed v r,
            inv.apart u v q r,
          );
    }
      where
        keep :
            (i : ℕ)
            → (v : ℕ) × (q : Project) × (ws.held v ≡ some q) × (q.id ≡ i)
            → (v : ℕ) × (q : Project) × (set_held w (some p) ws.held v ≡ some q) × (q.id ≡ i)
        keep i (v, q, k, e) = (v, q, ground arith, e)

        holder :
            (i : ℕ)
            → in_claimed i (p.id ∷ ws.pool.claimed) ≡ true
            → ((p.id == i) ≡ true) ⊎ ((p.id == i) ≡ false)
            → (v : ℕ) × (q : Project) × (set_held w (some p) ws.held v ≡ some q) × (q.id ≡ i)
        holder i k (inl e) = (w, p, ground arith, ==→eq p.id i e)
        holder i k (inr e) = keep i (inv.claimed_is_held i (ground arith))

end-Exclusive :
    (w now : ℕ) (et : ErrorText) (r : Result (Option Project)) (s : State) (ws : Workers)
    → Exclusive ws
    → (o : Option Project) → ws.held w ≡ o
    → Exclusive (end w now et r s o ws)
end-Exclusive w now et r s ws inv none h = inv
end-Exclusive w now et r s ws inv (some p) h = record {
  held_is_claimed = λ v q k. still v q k;
  claimed_is_held = λ i k.
      let k' : (in_claimed i ws.pool.claimed && not (i == p.id)) ≡ true = sym (left i) ∙ k in
      keep i (ground arith) (inv.claimed_is_held i (ground arith));
  apart = λ u v q r' hu hv e. ground (arith, inv.apart u v q r');
}
  where
    left :
        (i : ℕ)
        → in_claimed i (finish et now p r ws.pool s).1.claimed
          ≡ (in_claimed i ws.pool.claimed && not (i == p.id))
    left i =
        ap (in_claimed i) (finish-claimed et now p r ws.pool s)
        ∙ in_claimed-discard i p.id ws.pool.claimed

    still :
        (v : ℕ) (q : Project)
        → set_held w none ws.held v ≡ some q
        → in_claimed q.id (finish et now p r ws.pool s).1.claimed ≡ true
    still v q k = rw (left q.id) (ground (arith, inv.held_is_claimed v q, inv.apart v w q p))

    keep :
        (i : ℕ)
        → (i == p.id) ≡ false
        → (v : ℕ) × (q : Project) × (ws.held v ≡ some q) × (q.id ≡ i)
        → (v : ℕ) × (q : Project) × (set_held w none ws.held v ≡ some q) × (q.id ≡ i)
    keep i ne (v, q, k, e) = (v, q, ground (arith, inv.apart v w q p), e)

turn-Exclusive : (e : Event) (ws : Workers) → Exclusive ws → Exclusive (turn e ws)
unfolding turn
turn-Exclusive (starts w now s) ws inv = begin-Exclusive w now s ws inv (ws.held w) refl
turn-Exclusive (ends w now et r s) ws inv = end-Exclusive w now et r s ws inv (ws.held w) refl

-- Whatever the workers do and in whatever order, whatever the ticks return or raise, and whatever
-- the store holds at each event: if no two workers hold one project and the claimed ids are the
-- held ones, that is still so afterwards.
run-Exclusive : (es : List Event) (ws : Workers) → Exclusive ws → Exclusive (run es ws)
unfolding run
run-Exclusive [] ws inv = inv
run-Exclusive (e ∷ es) ws inv = run-Exclusive es (turn e ws) (turn-Exclusive e ws inv)

-- From the start of the process, two workers that are running ticks are never on one project: if
-- the projects that they hold have the same id, they are the same worker.
pub mutual_exclusion :
    (es : List Event) (v w : ℕ) (p q : Project)
    → (run es idle).held v ≡ some p
    → (run es idle).held w ≡ some q
    → p.id ≡ q.id
    → v ≡ w
mutual_exclusion es v w p q = (run-Exclusive es idle idle-Exclusive).apart v w p q
