-- ===== src/Pool/Starvation.antt =====
-- What a worker does with a claimed project that an operator has paused.
use ai_dev_swarm.Common.{ℕ, ◌≡◌, ◌≢◌, refl, ◌∙◌, true, false, List, [], ◌∷◌, none, some, arith}
use ai_dev_swarm.KillSwitch
use ai_dev_swarm.Schemas.Project.{Project}
use ai_dev_swarm.Schemas.Exceptions.{ok}
use ai_dev_swarm.Store.State.{State}
use ai_dev_swarm.Store.Action.{◌>>=◌}
use ai_dev_swarm.Tick.{advance_project}
use ai_dev_swarm.Tick.Tools.{TickDeps}
use ai_dev_swarm.Pool.{
  ErrorText, ProjectPool, in_claimed, discard, skipped, pick, claim, claim_next, finish,
  clear_transient, gather_candidates, step,
}

-- A tick of a paused project does nothing and returns None.
paused_tick :
    (d : TickDeps) (p : Project) (s : State)
    → KillSwitch.is_tripped_for p.id s ≡ false
    → KillSwitch.is_paused_for p.id s ≡ true
    → advance_project d p s ≡ (ok none, s)
unfolding advance_project ◌>>=◌
paused_tick d p s no_kill paused = ground arith

discard-absent : (i : ℕ) (xs : List ℕ) → in_claimed i xs ≡ false → discard i xs ≡ xs
discard-absent i [] h = refl
discard-absent i (x ∷ xs) h = ground (arith, discard-absent i xs)

discard-claimed : (i : ℕ) (xs : List ℕ) → in_claimed i xs ≡ false → discard i (i ∷ xs) ≡ xs
discard-claimed i xs h = ground (arith, discard-absent i xs h)

pick-skipped :
    (now : ℕ) (pool : ProjectPool) (ps : List Project) (p : Project)
    → pick now pool ps ≡ some p
    → skipped now pool p ≡ false
unfolding pick
pick-skipped now pool [] p e = cc
pick-skipped now pool (q ∷ ps) p e = ground (arith, pick-skipped now pool ps p)

pick-agree :
    (now : ℕ) (pool pool' : ProjectPool) (ps : List Project)
    → ((q : Project) → skipped now pool' q ≡ skipped now pool q)
    → pick now pool' ps ≡ pick now pool ps
unfolding pick
pick-agree now pool pool' [] h = refl
pick-agree now pool pool' (q ∷ ps) h = rw (h q, pick-agree now pool pool' ps h)

-- A worker that claims a project that is paused, and not killed, changes nothing: it reports no
-- progress, the store is the same, no other project is skipped more or less at any later time, and at
-- the time of the claim the pool's next claim is the same project again, whichever other projects
-- wait.
pub paused_head_starves :
    (et : ErrorText) (d : TickDeps) (now : ℕ) (pool : ProjectPool) (s : State) (p : Project)
    → (claim_next now pool s).0 ≡ some p
    → KillSwitch.is_tripped_for p.id s ≡ false
    → KillSwitch.is_paused_for p.id s ≡ true
    → ((step et d now pool s).0 ≡ false)
      × ((step et d now pool s).2 ≡ s)
      × ((q : Project)
          → q.id ≢ p.id
          → (later : ℕ) → skipped later (step et d now pool s).1 q ≡ skipped later pool q)
      × ((claim_next now (step et d now pool s).1 s).0 ≡ some p)
unfolding step claim_next finish clear_transient
paused_head_starves et d now pool s p e no_kill paused =
    let tick = paused_tick d p s no_kill paused in
    rw (e, tick) (refl, refl, others, pick-agree now pool _ (gather_candidates s) agree ∙ e)
  where
    free : in_claimed p.id pool.claimed ≡ false
    free = ground (arith, pick-skipped now pool (gather_candidates s) p e)

    others :
        (q : Project)
        → q.id ≢ p.id
        → (later : ℕ)
        → skipped later (finish et now p (ok none) (claim (some p) pool) s).1 q
          ≡ skipped later pool q
    others q ne later = ground (arith, discard-claimed p.id pool.claimed free)

    agree :
        (q : Project)
        → skipped now (finish et now p (ok none) (claim (some p) pool) s).1 q ≡ skipped now pool q
    agree q = ground (
      arith,
      discard-claimed p.id pool.claimed free,
      pick-skipped now pool (gather_candidates s) p e,
    )
