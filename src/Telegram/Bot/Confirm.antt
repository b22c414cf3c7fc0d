-- ===== src/Telegram/Bot/Confirm.antt =====
-- From the text of a destructive command to the tap on its button.
use ai_dev_swarm.Common.{
  ℕ, ◌+◌, ◌≤◌, ◌≡◌, refl, ◌∙◌, ap, true, ◌∷◌, ◌++◌, Option, none, some, Text, text,
}
use ai_dev_swarm.Schemas.Command.{Command, destructive}
use ai_dev_swarm.Router.{dispatch}
use ai_dev_swarm.Telegram.Pending.{ttl, set_item, pop}
use ai_dev_swarm.Telegram.Pending.Bound.{pop-set_item, pop_twice}
use ai_dev_swarm.Telegram.Bot.{
  BotDeps, Bot, Update, message, callback, understood, is_allowed, echo_for_confirmation,
  dispatch_parsed, on_text, partition, confirmed_copy, cb_yes, on_callback, on_content, on_update,
}
use ai_dev_swarm.Telegram.Bot.Gate.{store-run_command, pending-run_command}

-- The data of the Yes button read back.
partition_yes : (token : Text) → partition (text "yes:" ++ token) ≡ (text "yes", token)
unfolding partition
partition_yes token = refl

-- A tap on the Yes button of a token.
abbrev pub tap : Option ℕ → ℕ → Text → Update
tap user clock token = record {
  user = user;
  clock = clock;
  content = callback (text "yes:" ++ token);
}

on_tap :
    (d : BotDeps) (user : Option ℕ) (clock : ℕ) (token : Text) (b : Bot)
    → is_allowed d user ≡ true
    → on_update d (tap user clock token) b ≡ cb_yes d clock token b
unfolding on_update on_content on_callback partition
on_tap d user clock token b h = rw h refl

on_message :
    (d : BotDeps) (user : Option ℕ) (clock c : ℕ) (body : Text) (command : Command) (b : Bot)
    → is_allowed d user ≡ true
    → d.parse (c ∷ body) ≡ understood command
    → destructive command ≡ true
    → on_update d (record { user = user; clock = clock; content = message (c ∷ body) }) b
      ≡ echo_for_confirmation d clock command b
unfolding on_update on_content on_text dispatch_parsed
on_message d user clock c body command b h parsed harm = rw (h, parsed, harm) refl

module _ (d : BotDeps) (clock : ℕ) (token : Text) (b : Bot) where
  -- A tap on a token that stands for a command.
  cb_yes-some :
      (command : Command)
      → (pop clock token b.pending).0 ≡ some command
      → ((cb_yes d clock token b).store ≡ (dispatch d.router (confirmed_copy command) b.store).1)
        × ((cb_yes d clock token b).pending ≡ (pop clock token b.pending).1)
  unfolding cb_yes
  cb_yes-some command e =
      let b' : Bot = record b { pending = (pop clock token b.pending).1 } in
      rw e (
        store-run_command d (confirmed_copy command) b',
        pending-run_command d (confirmed_copy command) b',
      )

  -- A tap on any other token.
  cb_yes-none : (pop clock token b.pending).0 ≡ none → (cb_yes d clock token b).store ≡ b.store
  unfolding cb_yes
  cb_yes-none e = rw e refl

taps :
    (d : BotDeps) (command : Command) (later last : ℕ) (token : Text) (asked : Bot)
    → (pop later token asked.pending).0 ≡ some command
    → ((cb_yes d later token asked).store
        ≡ (dispatch d.router (confirmed_copy command) asked.store).1)
      × ((cb_yes d last token (cb_yes d later token asked)).store
          ≡ (cb_yes d later token asked).store)
taps d command later last token asked e =
    let first = cb_yes-some d later token asked command e in
    (
      first.0,
      cb_yes-none d last token (cb_yes d later token asked) (
          ap (λ items. (pop last token items).0) first.1
          ∙ pop_twice later last token asked.pending),
    )

-- An allowed user writes a text that is understood as a destructive command, and an allowed user
-- taps on its Yes button within the hour: the store is as the router leaves it with the confirmed
-- command, run once; a second tap, at any time, changes nothing more.
pub echo_then_tap :
    (d : BotDeps) (b : Bot) (user other : Option ℕ) (c : ℕ) (body : Text) (command : Command)
    (clock later last : ℕ)
    → is_allowed d user ≡ true
    → is_allowed d other ≡ true
    → d.parse (c ∷ body) ≡ understood command
    → destructive command ≡ true
    → later ≤ clock + ttl
    → let token = d.fresh_token b.store.next_id in
      let asked =
        on_update d (record { user = user; clock = clock; content = message (c ∷ body) }) b in
      let done = on_update d (tap other later token) asked in
      (done.store ≡ (dispatch d.router (confirmed_copy command) asked.store).1)
      × ((on_update d (tap other last token) done).store ≡ done.store)
echo_then_tap d b user other c body command clock later last h k parsed harm soon =
    let token = d.fresh_token b.store.next_id in
    let asked = echo_for_confirmation d clock command b in
    let both =
      taps d command later last token asked (unfold echo_for_confirmation in waits token) in
    rw
      (
        on_message d user clock c body command b h parsed harm,
        on_tap d other later token asked k,
        on_tap d other last token (cb_yes d later token asked) k,
      )
      both
  where
    waits :
        (token : Text) → (pop later token (set_item clock token command b.pending)).0 ≡ some command
    waits token = pop-set_item clock later token command b.pending soon
