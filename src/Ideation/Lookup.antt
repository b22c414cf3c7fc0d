-- ===== src/Ideation/Lookup.antt =====
-- What the comparison of the ideas with the swarm's own history says of each.
use mathlib.Core.List.{reverse}
use ai_dev_swarm.Common.{
  ◌≡◌, refl, ◌∙◌, sym, ap, subst, List, [], ◌∷◌, Option, none, some, All, Text, sort_by, ◌⊎◌, inl,
  inr, All-map, All-always, All-reverse, All-sort_by,
}
use ai_dev_swarm.Slugs.{Characters}
use ai_dev_swarm.Schemas.Exceptions.{Exception}
use ai_dev_swarm.Schemas.Idea.{Idea, ScoredIdea, Match}
use ai_dev_swarm.Schemas.Project.{Project}
use ai_dev_swarm.Store.State.{State}
use ai_dev_swarm.Store.Action.{◌>>=◌, pure, on_world}
use ai_dev_swarm.Store.Action.Keeps.{Rel, Keeps, keeps_rules}
use ai_dev_swarm.Store.Action.Runs.{
  Runs, Fails, bind-Runs, bind-Fails, pure-Runs, pure-Fails, catch-Runs, gets-Runs,
}
use ai_dev_swarm.Store.Projects.{list_all}
use ai_dev_swarm.Ideation.Novelty.{words_of, guarded, closest_in, look_up, find_duplicate}
use ai_dev_swarm.Ideation.Crew.{
  IdeationDeps, history_of, read_history, reject_duplicate, rejected, apply_self_dedup,
  apply_self_dedup_to,
}
use ai_dev_swarm.Ideation.Verdict.{Apart, closest-Apart, Unlike, All-history_of}

abbrev pub same_projects : Rel
same_projects = record {
  holds = λ s t. t.projects ≡ s.projects;
  same = λ s. refl;
  chain = λ s t u h k. k ∙ h;
  world = λ s w. refl;
  outbox = λ s o. refl;
}

listed : List Project → List Project
listed ps = reverse (sort_by (λ p. p.created_at) ps)

module _ {D : Type 0} (d : IdeationDeps D) where
  -- The read of the history that starts in `v` raises.
  abbrev pub Raised : State → Type 0
  Raised v = (e : Exception) × (u : State) × Fails (read_history d) v e u

  -- The ideas are compared one after the other, from the state `v`; when the turn of `idea` comes,
  -- the read of the history raises.
  pub data Unread : State → List ScoredIdea → Idea → Type 0 where
    now : {v : State} {g : ScoredIdea} {gs : List ScoredIdea} → Raised v → Unread v (g ∷ gs) g.idea
    later :
        {v u : State} {g x : ScoredIdea} {gs : List ScoredIdea} {idea : Idea}
        → Runs (apply_self_dedup d g) v x u
        → Unread u gs idea
        → Unread v (g ∷ gs) idea

  history-Runs :
      (v : State) (h : List (Text × Text)) (u : State)
      → Runs (read_history d) v h u
      → h ≡ history_of (listed v.projects)
  unfolding read_history list_all on_world listed
  history-Runs v h u r =
      let (a, w, r1, r2) = bind-Runs _ _ v h u r in
      let (ps, w2, r3, r4) = bind-Runs _ _ w h u r2 in
      let same : v.projects ≡ w.projects = ap (λ p. p.1.projects) r1 in
      let read : listed w.projects ≡ ps = (gets-Runs _ ps w w2 r3).0 in
      rw (same, read) (sym (pure-Runs _ h w2 u r4).0)

  body-Raised :
      (v : State) (e : Exception) (u : State)
      → Fails (read_history d >>= (λ h. pure (some h))) v e u
      → Raised v
  body-Raised v e u h = elim (bind-Fails _ _ v e u h) [
    | inl k ↦ (e, u, k)
    | inr (a, w, r, k) ↦ absurd (pure-Fails _ e w u k)
  ]

  guarded-Runs :
      (v : State) (o : Option (List (Text × Text))) (u : State)
      → Runs (guarded (read_history d)) v o u
      → (o ≡ some (history_of (listed v.projects))) ⊎ Raised v
  guarded-Runs v o u r = elim (catch-Runs _ _ v o u r) [
    | inl k ↦
        let (h, w, r1, r2) = bind-Runs _ _ v o u k in
        inl (sym (pure-Runs _ _ w u r2).0 ∙ ap some (history-Runs v h w r1))
    | inr (e, w, k, _) ↦ inr (body-Raised v e w k)
  ]

  look_up-Runs :
      (ch : Characters) (cand : List Text) (v u : State)
      → Runs (look_up ch (read_history d) cand) v none u
      → All (Apart ch cand) (history_of (listed v.projects)) ⊎ Raised v
  look_up-Runs ch [] v u r = inl (All-always (Apart ch []) (λ entry. inl refl) _)
  look_up-Runs ch (w ∷ ws) v u r =
      let (o, t, r1, r2) = bind-Runs _ _ v none u r in
      elim (guarded-Runs v o t r1) [
        | inl e ↦
            let far : closest_in ch (w ∷ ws) o ≡ none = (pure-Runs _ _ t u r2).0 in
            inl (
              All-map _ (Apart ch (w ∷ ws)) _ (λ entry h. inr h)
                (closest-Apart ch (w ∷ ws) _ (rw e at far)))
        | inr k ↦ inr k
      ]

  -- Unless it is rejected, the idea is apart from every project of `ps`, or the read of the history
  -- raised when its turn came, in the comparison of `gs` that starts in `v`.
  abbrev pub Compared : List Project → State → List ScoredIdea → ScoredIdea → Type 0
  Compared ps v gs x =
      x.rejected_reason ≡ none → Unlike d.prices.characters ps x.idea ⊎ Unread v gs x.idea

  unlisted :
      (ch : Characters) (ps : List Project) (idea : Idea)
      → All (Apart ch (words_of ch idea)) (history_of (listed ps))
      → Unlike ch ps idea
  unfolding listed
  unlisted ch ps idea h =
      All-sort_by _ _ ps (All-reverse _ _ (All-history_of ch (Apart ch (words_of ch idea)) _ h))

  verdict-Compared :
      (v w : State) (g : ScoredIdea) (gs : List ScoredIdea) (o : Option Match)
      → Runs (find_duplicate d.prices.characters (read_history d) g.idea) v o w
      → Compared v.projects v (g ∷ gs) (reject_duplicate g o)
  unfolding rejected find_duplicate
  verdict-Compared v w g gs none r h =
      elim (look_up-Runs d.prices.characters (words_of d.prices.characters g.idea) v w r) [
        | inl k ↦ inl (unlisted d.prices.characters v.projects g.idea k)
        | inr k ↦ inr (now k)
      ]
  verdict-Compared v w g gs (some m) r h = cc

  apply-Compared :
      (v u : State) (g x : ScoredIdea) (gs : List ScoredIdea)
      → Runs (apply_self_dedup d g) v x u
      → Compared v.projects v (g ∷ gs) x
  unfolding apply_self_dedup
  apply-Compared v u g x gs r =
      let (o, w, r1, r2) = bind-Runs _ _ v x u r in
      subst (Compared v.projects v (g ∷ gs)) (pure-Runs _ x w u r2).0
        (verdict-Compared v w g gs o r1)

  look_up-Keeps :
      (ch : Characters) (cand : List Text) → Keeps same_projects (look_up ch (read_history d) cand)
  unfolding read_history list_all
  look_up-Keeps ch [] = search keeps_rules
  look_up-Keeps ch (w ∷ ws) = search keeps_rules depth 12

  apply-Keeps : (g : ScoredIdea) → Keeps same_projects (apply_self_dedup d g)
  unfolding apply_self_dedup find_duplicate
  apply-Keeps g = search (keeps_rules, look_up-Keeps)

  pub apply_to-Keeps : (gs : List ScoredIdea) → Keeps same_projects (apply_self_dedup_to d gs)
  unfolding apply_self_dedup_to
  apply_to-Keeps [] = search keeps_rules
  apply_to-Keeps (g ∷ gs) =
      let rest = apply_to-Keeps gs in search (keeps_rules, apply-Keeps) depth 8

  -- What the comparison of the ideas `gs` that starts in `v` returns.
  pub apply_to-Compared :
      (gs : List ScoredIdea) (v u : State) (xs : List ScoredIdea)
      → Runs (apply_self_dedup_to d gs) v xs u
      → All (Compared v.projects v gs) xs
  unfolding apply_self_dedup_to
  apply_to-Compared [] v u xs r = subst (All _) (pure-Runs _ xs v u r).0 tt
  apply_to-Compared (g ∷ gs) v u xs r =
      let (x, w, r1, r2) = bind-Runs _ _ v xs u r in
      let (rest, w2, r3, r4) = bind-Runs _ _ w xs u r2 in
      let same : w.projects ≡ v.projects = sym (ap (λ p. p.1.projects) r1) ∙ (apply-Keeps g).at v in
      let compared = apply_to-Compared gs w w2 rest r3 in
      subst (All _) (pure-Runs _ xs w2 u r4).0 (
        apply-Compared v w g x gs r1,
        All-map _ _ rest
            (λ y f h. elim (f h) [
              | inl k ↦ inl (subst (λ ps. Unlike d.prices.characters ps y.idea) same k)
              | inr k ↦ inr (later r1 k)
            ])
            compared,
      )
