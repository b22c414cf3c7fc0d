-- ===== src/Store/Sessions/Latest.antt =====
-- The session that is recorded last is the one that the next attempt finds.
use ai_dev_swarm.Common.{
  ℕ, ◌≤◌, ◌<◌, ◌≡◌, refl, true, false, List, [], ◌∷◌, ◌++◌, some, Text, All, arith, Bool-cases, inl,
  inr, leb, select, sort_by, insert_by, select-Both, All-map, sort_by-All, ==_self, text_eq_self,
}
use mathlib.Core.List.{reverse-append}
use ai_dev_swarm.Store.State.{State}
use ai_dev_swarm.Store.Tokens.{session_of, latest_for}
use ai_dev_swarm.Store.Sessions.{new_session, record_session}

module _ {A : Type 0} (key : A → ℕ) (x : A) where
  insert_by-last : (ys : List A) → All (λ y. key y < key x) ys → insert_by key x ys ≡ ys ++ x ∷ []
  insert_by-last [] h = refl
  insert_by-last (y ∷ ys) (h, hs) =
      let e : leb (key x) (key y) ≡ false = ground arith in rw (e, insert_by-last ys hs) refl

  insert_by-before :
      (y : A) (ys : List A)
      → key y ≤ key x
      → insert_by key y (ys ++ x ∷ []) ≡ insert_by key y ys ++ x ∷ []
  insert_by-before y [] h = let e : leb (key y) (key x) ≡ true = ground arith in rw e refl
  insert_by-before y (z ∷ ys) h = elim (Bool-cases (leb (key y) (key z))) [
    | inl e ↦ rw e refl
    | inr e ↦ rw (e, insert_by-before y ys h) refl
  ]

  sort_by-last :
      (ys : List A)
      → All (λ y. key y ≤ key x) ys
      → sort_by key (ys ++ x ∷ []) ≡ sort_by key ys ++ x ∷ []
  sort_by-last [] h = refl
  sort_by-last (y ∷ ys) (h, hs) = rw (sort_by-last ys hs) (insert_by-before y (sort_by key ys) h)

-- The rows are older than what is recorded next.
abbrev pub Older : State → Type 0
Older s = All (λ x. (x.finished_at ≤ s.now) × (x.id < s.next_id)) s.world.sessions

-- After a session is recorded, a query for its milestone and role returns it, when the rows of the
-- table finished no later than now and have smaller ids.
pub latest_for-record_session :
    (s : State) (i : ℕ) (role session_id : Text) (cost turns : ℕ)
    → Older s
    → latest_for i role (record_session i role session_id cost turns s).1.world
      ≡ some (new_session i role session_id cost turns s)
unfolding latest_for record_session
latest_for-record_session s i role session_id cost turns h =
    let x = new_session i role session_id cost turns s in
    let xs = select (session_of i role) s.world.sessions in
    let older : All (λ y. (y.finished_at ≤ s.now) × (y.id < s.next_id)) xs =
      All-map _ _ xs (λ y k. k.0)
        (select-Both (λ y. (y.finished_at ≤ s.now) × (y.id < s.next_id)) (session_of i role)
          s.world.sessions h) in
    let sorted = sort_by (λ y. y.id) xs in
    let by_id =
      insert_by-last (λ y. y.id) x sorted
        (sort_by-All _ (λ y. y.id) xs (All-map _ _ xs (λ y k. k.1) older)) in
    let by_time =
      sort_by-last (λ y. y.finished_at) x sorted
        (sort_by-All _ (λ y. y.id) xs (All-map _ _ xs (λ y k. k.0) older)) in
    rw
      (
        ==_self i,
        text_eq_self role,
        by_id,
        by_time,
        reverse-append (sort_by (λ y. y.finished_at) sorted) (x ∷ []),
      )
      refl
