-- ===== src/Telegram/Tests.antt =====
-- The theorems about the bot at concrete inputs.
use ai_dev_swarm.Common.{
  ℕ, ◌≡◌, ◌≤◌, refl, arith, true, false, [], ◌∷◌, some, none, text, text_eq, select, pos,
  if◌then◌else◌,
}
use ai_dev_swarm.Schemas.Command.{Command, kill_switch, destructive}
use ai_dev_swarm.Schemas.Exceptions.{ok}
use ai_dev_swarm.Samples.{ascii, running}
use ai_dev_swarm.Router.{RouterDeps, dispatch}
use ai_dev_swarm.Telegram.Pending.{max_entries}
use ai_dev_swarm.Telegram.Bot.{
  BotDeps, Bot, Update, message, understood, not_understood, is_allowed, confirmed_copy, on_update,
  run_polling,
}
use ai_dev_swarm.Telegram.Bot.Gate.{Effect, on_update-Effect, strangers_do_nothing}
use ai_dev_swarm.Telegram.Bot.Confirm.{tap, echo_then_tap}
use ai_dev_swarm.Telegram.Bot.Size.{Small, run_polling-Small}

abbrev router : RouterDeps
router = record {
  characters = ascii;
  numbers = record { parse_int = λ t. some (pos 1); parse_float = λ t. none };
  publish_decision = λ i body w. w;
  ideate_runner = λ force w. (ok tt, w);
  show_id = λ i. text "id";
}

abbrev stop : Command
stop = kill_switch (text "stop") false

-- A bot of user 7 that understands one text.
abbrev deps : BotDeps
deps = record {
  router = router;
  allowed_user_ids = 7 ∷ [];
  parse = λ t. if text_eq t (text "stop") then understood stop else not_understood;
  fresh_token = λ i. text "token";
  read_uuid = λ t. none;
}

abbrev bot : Bot
bot = record { pending = []; store = running; replies = [] }

abbrev says_stop : ℕ → Update
says_stop user = record { user = some user; clock = 10; content = message (text "stop") }

allowed : is_allowed deps (some 7) ≡ true
unfolding is_allowed
allowed = refl

harmful : destructive stop ≡ true
unfolding destructive
harmful = refl

in_time : 20 ≤ 3610
in_time = omega arith

empty : 0 ≤ max_entries
empty = omega arith

on_update-Effect_example : Effect deps (says_stop 7) bot (on_update deps (says_stop 7) bot)
on_update-Effect_example = on_update-Effect deps (says_stop 7) bot

strangers_do_nothing_example :
    run_polling deps (says_stop 8 ∷ says_stop 7 ∷ []) bot
    ≡ run_polling deps (select (λ u. is_allowed deps u.user) (says_stop 8 ∷ says_stop 7 ∷ [])) bot
strangers_do_nothing_example = strangers_do_nothing deps (says_stop 8 ∷ says_stop 7 ∷ []) bot

echo_then_tap_example :
    let asked = on_update deps (says_stop 7) bot in
    let done = on_update deps (tap (some 7) 20 (text "token")) asked in
    (done.store ≡ (dispatch router (confirmed_copy stop) asked.store).1)
    × ((on_update deps (tap (some 7) 30 (text "token")) done).store ≡ done.store)
echo_then_tap_example =
    echo_then_tap deps bot (some 7) (some 7) b's' (text "top") stop 10 20 30 allowed allowed refl
      harmful in_time

run_polling-Small_example : Small (run_polling deps (says_stop 7 ∷ []) bot)
run_polling-Small_example = run_polling-Small deps (says_stop 7 ∷ []) bot empty
