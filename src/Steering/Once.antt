-- ===== src/Steering/Once.antt =====
-- Each note reaches each role that it addresses once.
use ai_dev_swarm.Common.{
  text_eq_self, ℕ, ◌≡◌, refl, Bool, true, false, List, [], ◌∷◌, Text, text_eq, select, All, All-map,
  All-sort_by, All-select, arith, Bool-cases, inl, inr, ==_self,
}
use ai_dev_swarm.Schemas.Exceptions.{ok}
use ai_dev_swarm.Store.State.{World, SteeringNote, Delivery}
use ai_dev_swarm.Steering.{candidates, deliver, pull_unconsumed, delivered, waiting, blank}

-- What has been delivered stays delivered.
deliver-keeps :
    (role : Text) (ns : List SteeringNote) (ds : List Delivery) (i : ℕ) (r : Text)
    → delivered i r ds ≡ true
    → delivered i r (deliver role ns ds) ≡ true
deliver-keeps role [] ds i r h = h
deliver-keeps role (n ∷ ns) ds i r h = ground (arith, deliver-keeps role ns ds i r h)

-- The notes that are delivered are delivered.
deliver-All :
    (role : Text) (ns : List SteeringNote) (ds : List Delivery)
    → All (λ n. delivered n.id role (deliver role ns ds) ≡ true) ns
deliver-All role [] ds = tt
deliver-All role (n ∷ ns) ds = (
  ground (arith, ==_self n.id, text_eq_self role),
  All-map _ _ ns (λ m h. ground arith) (deliver-All role ns ds),
)

select-none :
    {A : Type 0} (p : A → Bool) (xs : List A) → All (λ x. p x ≡ false) xs → select p xs ≡ []
select-none p [] h = refl
select-none p (x ∷ xs) (h, hs) = rw h (select-none p xs hs)

-- After a pull nothing of the project waits for the role any more.
none_waiting :
    (project_id : ℕ) (role : Text) (w : World)
    → All
        (λ n.
          waiting project_id role
            (record w { deliveries = deliver role (candidates project_id role w) w.deliveries })
            n
          ≡ false)
        w.notes
unfolding candidates
none_waiting project_id role w =
    let ns = candidates project_id role w in
    let P = λ (n : SteeringNote). delivered n.id role (deliver role ns w.deliveries) ≡ true in
    let all = All-select P (waiting project_id role w) w.notes (
      All-sort_by P (λ n. n.id) _
        (All-sort_by P (λ n. n.created_at) _ (deliver-All role ns w.deliveries))) in
    All-map _ _ w.notes (λ n h. ground (arith, deliver-keeps role ns w.deliveries n.id role)) all

-- A second pull of the same role, one with a name, with no note added in between, returns no note and delivers
-- nothing.
pub pull_once :
    (project_id : ℕ) (role : Text) (w : World)
    → blank role ≡ false
    → pull_unconsumed project_id role (pull_unconsumed project_id role w).1
      ≡ (ok [], (pull_unconsumed project_id role w).1)
unfolding pull_unconsumed candidates
pull_once project_id role w h =
    rw
      (
        h,
        select-none
            (waiting project_id role
              (record w { deliveries = deliver role (candidates project_id role w) w.deliveries }))
            w.notes (none_waiting project_id role w),
      )
      refl

deliver-other :
    (role r : Text) (ns : List SteeringNote) (ds : List Delivery) (i : ℕ)
    → text_eq role r ≡ false
    → delivered i r (deliver role ns ds) ≡ delivered i r ds
deliver-other role r [] ds i h = refl
deliver-other role r (n ∷ ns) ds i h = ground (arith, deliver-other role r ns ds i h)

select-agree :
    {A : Type 0} (p q : A → Bool) (xs : List A) → ((x : A) → p x ≡ q x) → select p xs ≡ select q xs
select-agree p q [] h = refl
select-agree p q (x ∷ xs) h = rw (h x, select-agree p q xs h)

-- A pull of one role takes no note away from another role: what waits for the other role is the
-- same before and after.
pub pull_for_others :
    (project_id : ℕ) (role other : Text) (w : World)
    → text_eq role other ≡ false
    → candidates project_id other (pull_unconsumed project_id role w).1
      ≡ candidates project_id other w
unfolding pull_unconsumed candidates
pull_for_others project_id role other w h = elim (Bool-cases (blank role)) [
  | inl b ↦ rw b refl
  | inr b ↦
      rw
        (
          b,
          select-agree
              (waiting project_id other (record w {
                deliveries = deliver role (candidates project_id role w) w.deliveries;
              }))
              (waiting project_id other w) w.notes
              (λ n. ground (
                arith,
                deliver-other role other (candidates project_id role w) w.deliveries n.id h,
              )),
        )
        refl
]
