-- ===== src/Telegram/Pending.antt =====
-- telegram/bot.py, `_PendingConfirmations`: the destructive commands that wait for a tap, the
-- oldest first. A clock reading is whole seconds of `time.monotonic`.
pub mod Bound
use ai_dev_swarm.Common.{
  ℕ, ◌+◌, ltb, Bool, not, List, [], ◌∷◌, ◌++◌, Option, none, some, Text, text_eq, length, find,
  select, any, if◌then◌else◌,
}
use ai_dev_swarm.Schemas.Command.{Command}

pub record Item : Type 0 where
  pub token : Text
  pub command : Command
  pub stamp : ℕ

-- `ttl_seconds` and `max_entries`
abbrev pub ttl : ℕ
ttl = 3600

abbrev pub max_entries : ℕ
max_entries = 256

abbrev pub has_token : Text → Item → Bool
has_token token x = text_eq x.token token

-- `ts < clock() - ttl`
abbrev pub expired : ℕ → Item → Bool
expired now x = ltb (x.stamp + ttl) now

-- `_prune`
unfoldable pub prune : ℕ → List Item → List Item
prune now items = select (λ x. not (expired now x)) items

-- `del items[token]`, where it is there.
abbrev pub remove : Text → List Item → List Item
remove token items = select (λ x. not (has_token token x)) items

-- `while len(items) > max: items.popitem(last=False)`
unfoldable pub evict : List Item → List Item
evict [] = []
evict (x ∷ items) =
    let rest = evict items in if ltb max_entries (length (x ∷ items)) then rest else x ∷ items

-- `__setitem__`: the token moves to the end.
unfoldable pub set_item : ℕ → Text → Command → List Item → List Item
set_item now token command items = evict (
    remove token (prune now items)
    ++ (record { token = token; command = command; stamp = now } ∷ []))

abbrev pub command_of : Option Item → Option Command
command_of none = none
command_of (some x) = some x.command

-- `pop(token, None)`
unfoldable pub pop : ℕ → Text → List Item → Option Command × List Item
pop now token items =
    let live = prune now items in (command_of (find (has_token token) live), remove token live)
