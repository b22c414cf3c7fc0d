-- ===== src/Telegram/Pending/Bound.antt =====
-- The store of waiting confirmations: its size, its expiry, and what a token stands for.
use ai_dev_swarm.Common.{
  ℕ, ◌+◌, ◌≤◌, ◌≡◌, refl, sym, ap, Bool, true, false, not, ◌&&◌, List, [], ◌∷◌, ◌++◌, Option, none,
  some, Text, text_eq_self, length, find, select, any, arith,
}
use ai_dev_swarm.Schemas.Command.{Command}
use ai_dev_swarm.Telegram.Pending.{
  Item, ttl, max_entries, has_token, expired, prune, remove, evict, set_item, command_of, pop,
}

length-evict : (items : List Item) → length (evict items) ≤ max_entries
unfolding evict
length-evict [] = omega arith
length-evict (x ∷ items) = ground (arith, length-evict items)

length-select : (p : Item → Bool) (items : List Item) → length (select p items) ≤ length items
length-select p [] = omega arith
length-select p (x ∷ items) = ground (arith, length-select p items)

pub length-set_item :
    (now : ℕ) (token : Text) (command : Command) (items : List Item)
    → length (set_item now token command items) ≤ max_entries
unfolding set_item
length-set_item now token command items = length-evict _

pub length-pop :
    (now : ℕ) (token : Text) (items : List Item) → length (pop now token items).1 ≤ length items
unfolding pop prune
length-pop now token items = omega (
  arith,
  length-select (λ x. not (has_token token x)) (prune now items),
  length-select (λ x. not (expired now x)) items,
)

any-remove : (token : Text) (items : List Item) → any (has_token token) (remove token items) ≡ false
any-remove token [] = refl
any-remove token (x ∷ items) = ground (arith, any-remove token items)

find-none : (p : Item → Bool) (items : List Item) → any p items ≡ false → find p items ≡ none
find-none p [] h = refl
find-none p (x ∷ items) h = ground (arith, find-none p items)

any-select :
    (p q : Item → Bool) (items : List Item) → any p items ≡ false → any p (select q items) ≡ false
any-select p q [] h = refl
any-select p q (x ∷ items) h = ground (arith, any-select p q items)

-- A popped token is gone: to pop it again gives nothing, at whatever time.
pub pop_twice :
    (now later : ℕ) (token : Text) (items : List Item)
    → (pop later token (pop now token items).1).0 ≡ none
unfolding pop prune
pop_twice now later token items = ap command_of (
    find-none (has_token token) _ (
      any-select (has_token token) (λ x. not (expired later x)) _
        (any-remove token (prune now items))))

find-last :
    (p q : Item → Bool) (items : List Item) (x : Item)
    → any p items ≡ false
    → p x ≡ true
    → q x ≡ true
    → find p (select q (items ++ x ∷ [])) ≡ some x
find-last p q [] x free px qx = rw (qx, px) refl
find-last p q (y ∷ items) x free px qx = ground (arith, find-last p q items x)

find-evict :
    (p q : Item → Bool) (items : List Item) (x : Item)
    → any p items ≡ false
    → p x ≡ true
    → q x ≡ true
    → find p (select q (evict (items ++ x ∷ []))) ≡ some x
unfolding evict
find-evict p q [] x free px qx = rw (qx, px) refl
find-evict p q (y ∷ items) x free px qx =
    ground (arith, find-evict p q items x, find-last p q items x)

-- A command is found under its token until it expires, whatever else is stored or evicted.
pub pop-set_item :
    (now later : ℕ) (token : Text) (command : Command) (items : List Item)
    → later ≤ now + ttl
    → (pop later token (set_item now token command items)).0 ≡ some command
unfolding pop prune set_item
pop-set_item now later token command items h =
    let x : Item = record { token = token; command = command; stamp = now } in
    let kept : not (expired later x) ≡ true = ground arith in
    ap command_of (
      find-evict (has_token token) (λ y. not (expired later y)) (remove token (prune now items)) x
        (any-remove token (prune now items)) (text_eq_self token) kept)

-- The token stands for a stored command that has not expired at that time.
abbrev pub usable : ℕ → Text → Item → Bool
usable now token x = not (expired now x) && has_token token x

pub record Waiting (now : ℕ) (token : Text) (command : Command) (items : List Item) : Type 0 where
  pub item : Item
  pub found : find (usable now token) items ≡ some item
  pub same : item.command ≡ command

find-select :
    (p q : Item → Bool) (items : List Item) → find p (select q items) ≡ find (λ x. q x && p x) items
find-select p q [] = refl
find-select p q (x ∷ items) = ground (arith, find-select p q items)

-- What is popped was waiting, and is waiting no longer.
pub pop-Waiting :
    (now : ℕ) (token : Text) (items : List Item) (command : Command)
    → (pop now token items).0 ≡ some command
    → Waiting now token command items
unfolding pop prune
pop-Waiting now token items command e =
    from_found (find (has_token token) (prune now items))
      (sym (find-select (has_token token) (λ x. not (expired now x)) items)) e
  where
    from_found :
        (o : Option Item)
        → find (usable now token) items ≡ o
        → command_of o ≡ some command
        → Waiting now token command items
    from_found none f h = cc
    from_found (some x) f h = record { item = x; found = f; same = cc }

pub popped_is_gone :
    (now : ℕ) (token : Text) (items : List Item)
    → any (has_token token) (pop now token items).1 ≡ false
unfolding pop
popped_is_gone now token items = any-remove token (prune now items)
