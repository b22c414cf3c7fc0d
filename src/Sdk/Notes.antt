-- ===== src/Sdk/Notes.antt =====
-- Which notes the prompt of a session carries.
use ai_dev_swarm.Common.{
  ℕ, ◌≡◌, refl, ap, sym, ◌∙◌, false, List, [], ◌∷◌, ◌++◌, map, All, All-map, Option, Text, text,
  none,
}
use mathlib.Core.List.{append_assoc}
use ai_dev_swarm.Slugs.{Characters, strip_spaces}
use ai_dev_swarm.Schemas.Exceptions.{Result, ok, raise}
use ai_dev_swarm.Schemas.Milestone.{Milestone}
use ai_dev_swarm.Store.State.{State}
use ai_dev_swarm.Store.Action.{◌>>=◌, pure, on_world, and_then}
use ai_dev_swarm.Steering.{blank, candidates, pull_unconsumed}
use ai_dev_swarm.Steering.Once.{pull_once}
use ai_dev_swarm.Steering.Renderer.{format_notes, bullet, bullets, join, join_more, under_heading}
use ai_dev_swarm.Sdk.Invocation.{
  Role, developer, tester, role_name, SdkDeps, Options, allowed_tools, disallowed_tools, inject,
  model_of, build_options,
}

-- The options of a session whose prompt renders `notes`.
abbrev pub with_notes : SdkDeps → Role → Milestone → ℕ → ℕ → Option Text → Text → Options
with_notes d role m max_turns max_budget_usd resume notes = record {
  system_prompt = d.render (d.template role) notes;
  allowed = allowed_tools role;
  disallowed = disallowed_tools;
  max_turns = max_turns;
  max_budget_usd = max_budget_usd;
  resume = resume;
  model = model_of d.settings role m;
  hook = inject role m.project_id;
}

named : (role : Role) → blank (role_name role) ≡ false
named developer = refl
named tester = refl

module _ (f : List Text → Options) (t : State) where
  state-and_then : (r : Result (List Text)) → (and_then r (λ notes. pure (f notes)) t).1 ≡ t
  unfolding pure
  state-and_then (ok notes) = refl
  state-and_then (raise e) = refl

  empty-and_then :
      (r : Result (List Text)) → r ≡ ok [] → (and_then r (λ notes. pure (f notes)) t).0 ≡ ok (f [])
  unfolding pure
  empty-and_then r e = rw e refl

after_pull : Role → Milestone → State → State
after_pull role m s = record s { world = (pull_unconsumed m.project_id (role_name role) s.world).1 }

state-build_options :
    (d : SdkDeps) (role : Role) (m : Milestone) (max_turns max_budget_usd : ℕ)
    (resume : Option Text) (s : State)
    → (build_options d role m max_turns max_budget_usd resume s).1 ≡ after_pull role m s
unfolding build_options on_world ◌>>=◌ after_pull
state-build_options d role m max_turns max_budget_usd resume s =
    state-and_then _ (after_pull role m s) (pull_unconsumed m.project_id (role_name role) s.world).0

no_notes :
    (d : SdkDeps) (role : Role) (m : Milestone) (max_turns max_budget_usd : ℕ) (s : State)
    → (build_options d role m max_turns max_budget_usd none (after_pull role m s)).0
      ≡ ok (with_notes d role m max_turns max_budget_usd none [])
unfolding build_options on_world ◌>>=◌ format_notes bullets after_pull
no_notes d role m max_turns max_budget_usd s =
    empty-and_then _ _ _
      (ap (λ p. p.0) (pull_once m.project_id (role_name role) s.world (named role)))

-- `u` has `t` as a part.
abbrev pub Holds : Text → Text → Type 0
Holds t u = (before after : Text) × (u ≡ before ++ (t ++ after))

Holds-after : (t u v : Text) → Holds t v → Holds t (u ++ v)
Holds-after t u v (b, a, e) = (u ++ b, a, rw e (sym (append_assoc u b (t ++ a))))

Holds-within : (t u v : Text) → Holds (u ++ t) v → Holds t v
Holds-within t u v (b, a, e) =
    (b ++ u, a, e ∙ (ap (λ x. b ++ x) (append_assoc u t a) ∙ sym (append_assoc b u (t ++ a))))

join_more-Holds : (sep : Text) (ts : List Text) → All (λ t. Holds t (join_more sep ts)) ts
join_more-Holds sep [] = tt
join_more-Holds sep (t ∷ ts) = (
  (sep, join_more sep ts, refl),
  All-map _ _ ts (λ u h. Holds-after u sep _ (Holds-after u t _ h)) (join_more-Holds sep ts),
)

join-Holds : (sep : Text) (ts : List Text) → All (λ t. Holds t (join sep ts)) ts
join-Holds sep [] = tt
join-Holds sep (t ∷ ts) = (
  ([], join_more sep ts, refl),
  All-map _ _ ts (λ u h. Holds-after u t _ h) (join_more-Holds sep ts),
)

heading-Holds : (t u : Text) → Holds t u → Holds t (under_heading u)
heading-Holds t [] h = h
heading-Holds t (c ∷ u) h =
    Holds-after t (text "\n\n## Steering notes from the operator (pending):\n") (c ∷ u) h

-- Each note, without the white space around it, is a part of what the prompt renders.
abbrev pub Rendered : Characters → Text → List Text → Type 0
Rendered ch shown notes = All (λ note. Holds (strip_spaces ch note) shown) notes

bullet-Holds :
    (shown note : Text) (rest : List Text)
    → All (λ b. Holds b shown) (bullet note rest)
    → Holds note shown × All (λ b. Holds b shown) rest
bullet-Holds shown [] rest h = (([], shown, refl), h)
bullet-Holds shown (c ∷ note) rest (h, hs) = (Holds-within (c ∷ note) (text "- ") shown h, hs)

bullets-Rendered :
    (ch : Characters) (shown : Text) (notes : List Text)
    → All (λ b. Holds b shown) (bullets ch notes)
    → Rendered ch shown notes
unfolding bullets
bullets-Rendered ch shown [] h = tt
bullets-Rendered ch shown (note ∷ notes) h =
    let (k, ks) = bullet-Holds shown (strip_spaces ch note) (bullets ch notes) h in
    (k, bullets-Rendered ch shown notes ks)

format_notes-Rendered :
    (ch : Characters) (notes : List Text) → Rendered ch (format_notes ch notes) notes
unfolding format_notes
format_notes-Rendered ch notes = bullets-Rendered ch _ notes (
    All-map _ _ (bullets ch notes) (λ t h. heading-Holds t _ h)
      (join-Holds (text "\n") (bullets ch notes)))

-- What waits for the role of a session: the bodies of the notes.
abbrev pub waiting_bodies : Role → Milestone → State → List Text
waiting_bodies role m s = map (λ n. n.body) (candidates m.project_id (role_name role) s.world)

first_notes :
    (d : SdkDeps) (role : Role) (m : Milestone) (max_turns max_budget_usd : ℕ)
    (resume : Option Text) (s : State)
    → (build_options d role m max_turns max_budget_usd resume s).0
      ≡ ok (
          with_notes d role m max_turns max_budget_usd resume
            (format_notes d.prices.characters (waiting_bodies role m s)))
unfolding build_options on_world ◌>>=◌ pull_unconsumed pure
first_notes d role m max_turns max_budget_usd resume s = rw (named role) refl

-- The notes that wait for a role go into the options of a session that are built first: what their
-- prompt renders has each waiting note, without the white space around it, as a part. The prompt of
-- the options built a second time, as for the fresh session after one that could not be resumed,
-- renders no note.
pub second_has_no_notes :
    (d : SdkDeps) (role : Role) (m : Milestone) (max_turns max_budget_usd : ℕ)
    (resume : Option Text) (s : State)
    → (shown : Text) × Rendered d.prices.characters shown (waiting_bodies role m s)
      × ((build_options d role m max_turns max_budget_usd resume s).0
          ≡ ok (with_notes d role m max_turns max_budget_usd resume shown))
      × ((build_options d role m max_turns max_budget_usd none
            (build_options d role m max_turns max_budget_usd resume s).1).0
          ≡ ok (with_notes d role m max_turns max_budget_usd none []))
second_has_no_notes d role m max_turns max_budget_usd resume s = (
  format_notes d.prices.characters (waiting_bodies role m s),
  format_notes-Rendered d.prices.characters (waiting_bodies role m s),
  first_notes d role m max_turns max_budget_usd resume s,
  rw (state-build_options d role m max_turns max_budget_usd resume s)
      (no_notes d role m max_turns max_budget_usd s),
)
