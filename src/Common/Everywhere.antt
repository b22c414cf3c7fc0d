-- ===== src/Common/Everywhere.antt =====
-- A property of every element of a list, through the list operations; sorting puts a list in order.
use Prim.Native.Nat.{ℕ, ◌≤◌}
use mathlib.Core.Path.{◌≡◌}
use mathlib.Core.Logic.{inl, inr}
use mathlib.Core.Bool.{Bool, true}
use mathlib.Core.List.{List, [], ◌∷◌, ◌++◌, reverse, reverse_aux}
use native.Mathlib.Omega.{arith}
use ai_dev_swarm.Common.Tests.{leb, Bool-cases}
use ai_dev_swarm.Common.Lists.{All, select, insert_by, sort_by}

module _ {A : Type 0} (P : A → Type 0) where
  pub All-map : (Q : A → Type 0) (xs : List A) → ((x : A) → P x → Q x) → All P xs → All Q xs
  All-map Q [] f h = tt
  All-map Q (x ∷ xs) f (h, hs) = (f x h, All-map Q xs f hs)

  pub All-always : ((x : A) → P x) → (xs : List A) → All P xs
  All-always f [] = tt
  All-always f (x ∷ xs) = (f x, All-always f xs)

  All-reverse_aux : (xs ys : List A) → All P (reverse_aux xs ys) → All P xs × All P ys
  All-reverse_aux [] ys h = (tt, h)
  All-reverse_aux (x ∷ xs) ys h = let (hs, (k, ks)) = All-reverse_aux xs (x ∷ ys) h in ((k, hs), ks)

  pub All-reverse : (xs : List A) → All P (reverse xs) → All P xs
  All-reverse xs h = (All-reverse_aux xs [] h).0

  pub select-Both :
      (p : A → Bool) (xs : List A) → All P xs → All (λ x. P x × (p x ≡ true)) (select p xs)
  select-Both p [] h = tt
  select-Both p (x ∷ xs) (h, hs) = elim (Bool-cases (p x)) [
    | inl e ↦ rw e ((h, e), select-Both p xs hs)
    | inr e ↦ rw e (select-Both p xs hs)
  ]

  pub All-both : (Q : A → Type 0) (xs : List A) → All P xs → All Q xs → All (λ x. P x × Q x) xs
  All-both Q [] h k = tt
  All-both Q (x ∷ xs) (h, hs) (k, ks) = ((h, k), All-both Q xs hs ks)

  pub All-append : (xs ys : List A) → All P (xs ++ ys) → All P xs × All P ys
  All-append [] ys h = (tt, h)
  All-append (x ∷ xs) ys (h, hs) = let r = All-append xs ys hs in ((h, r.0), r.1)

  pub append-All : (xs ys : List A) → All P xs → All P ys → All P (xs ++ ys)
  append-All [] ys h k = k
  append-All (x ∷ xs) ys (h, hs) k = (h, append-All xs ys hs k)

  pub All-select :
      (p : A → Bool) (xs : List A) → All P (select p xs) → All (λ x. p x ≡ true → P x) xs
  All-select p [] h = tt
  All-select p (x ∷ xs) h = elim (Bool-cases (p x)) [
    | inl e ↦ let h' : All P (x ∷ select p xs) = rw e at h in (λ _. h'.0, All-select p xs h'.1)
    | inr e ↦ let h' : All P (select p xs) = rw e at h in (λ e'. cc, All-select p xs h')
  ]

  pub select-All : (p : A → Bool) (xs : List A) → ((x : A) → p x ≡ true → P x) → All P (select p xs)
  select-All p [] f = tt
  select-All p (x ∷ xs) f = elim (Bool-cases (p x)) [
    | inl e ↦ rw e (f x e, select-All p xs f)
    | inr e ↦ rw e (select-All p xs f)
  ]

  pub insert_by-All :
      (key : A → ℕ) (x : A) (ys : List A) → P x → All P ys → All P (insert_by key x ys)
  insert_by-All key x [] h hs = (h, tt)
  insert_by-All key x (y ∷ ys) h (k, ks) = elim (Bool-cases (leb (key x) (key y))) [
    | inl e ↦ rw e (h, (k, ks))
    | inr e ↦ rw e (k, insert_by-All key x ys h ks)
  ]

  pub All-insert_by :
      (key : A → ℕ) (x : A) (ys : List A) → All P (insert_by key x ys) → P x × All P ys
  All-insert_by key x [] h = h
  All-insert_by key x (y ∷ ys) h = elim (Bool-cases (leb (key x) (key y))) [
    | inl e ↦ let h' : All P (x ∷ y ∷ ys) = rw e at h in h'
    | inr e ↦
        let h' : All P (y ∷ insert_by key x ys) = rw e at h in
        let r = All-insert_by key x ys h'.1 in (r.0, (h'.0, r.1))
  ]

  pub All-sort_by : (key : A → ℕ) (xs : List A) → All P (sort_by key xs) → All P xs
  All-sort_by key [] h = tt
  All-sort_by key (x ∷ xs) h =
      let r = All-insert_by key x (sort_by key xs) h in (r.0, All-sort_by key xs r.1)

  pub sort_by-All : (key : A → ℕ) (xs : List A) → All P xs → All P (sort_by key xs)
  sort_by-All key [] h = tt
  sort_by-All key (x ∷ xs) (h, hs) = insert_by-All key x (sort_by key xs) h (sort_by-All key xs hs)

module _ {A : Type 0} (key : A → ℕ) where
  -- `ys` is in ascending order of the key.
  abbrev pub Sorted : List A → Type 0
  Sorted [] = Unit
  Sorted (x ∷ xs) = All (λ y. key x ≤ key y) xs × Sorted xs

  insert_by-Sorted : (x : A) (ys : List A) → Sorted ys → Sorted (insert_by key x ys)
  insert_by-Sorted x [] h = (tt, tt)
  insert_by-Sorted x (y ∷ ys) (h, hs) = elim (Bool-cases (leb (key x) (key y))) [
    | inl e ↦
        let le : key x ≤ key y = ground arith in
        rw e (
          (le, All-map (λ z. key y ≤ key z) (λ z. key x ≤ key z) ys (λ z k. omega arith) h),
          (h, hs),
        )
    | inr e ↦
        let le : key y ≤ key x = ground arith in
        rw e (insert_by-All (λ z. key y ≤ key z) key x ys le h, insert_by-Sorted x ys hs)
  ]

  pub sort_by-Sorted : (xs : List A) → Sorted (sort_by key xs)
  sort_by-Sorted [] = tt
  sort_by-Sorted (x ∷ xs) = insert_by-Sorted x (sort_by key xs) (sort_by-Sorted xs)
