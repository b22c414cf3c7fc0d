-- ===== src/Telegram/Bot/Size.antt =====
-- The memory that waiting confirmations take.
use ai_dev_swarm.Common.{
  ℕ, ◌≤◌, ap, Bool, true, false, List, [], ◌∷◌, Option, none, some, Text, text, text_eq, length,
  arith, if◌then◌else◌,
}
use ai_dev_swarm.Schemas.Command.{Command, destructive}
use ai_dev_swarm.Telegram.Pending.{max_entries, pop}
use ai_dev_swarm.Telegram.Pending.Bound.{length-set_item, length-pop}
use ai_dev_swarm.Telegram.Bot.{
  BotDeps, Bot, Update, Content, cmd_help, cmd_list, cmd_kill, message, callback, Parsed,
  understood, not_understood, unreachable, is_allowed, run_command, echo_for_confirmation,
  dispatch_parsed, on_parsed, on_text, partition, confirmed_copy, cb_no, confirm_popped, cb_yes,
  cb_approve, on_callback, on_content, on_update, run_polling,
}
use ai_dev_swarm.Telegram.Bot.Gate.{pending-run_command}

abbrev pub Small : Bot → Type 0
Small b = length b.pending ≤ max_entries

either-Small : (c : Bool) (x y : Bot) → Small x → Small y → Small (if c then x else y)
either-Small true x y sx sy = sx
either-Small false x y sx sy = sy

run_command-Small : (d : BotDeps) (c : Command) (b : Bot) → Small b → Small (run_command d c b)
run_command-Small d c b h = rw (ap length (pending-run_command d c b)) h

module _ (d : BotDeps) (clock : ℕ) (b : Bot) (h : Small b) where
  echo-Small : (c : Command) → Small (echo_for_confirmation d clock c b)
  unfolding echo_for_confirmation
  echo-Small c = length-set_item clock _ c b.pending

  dispatch_parsed-Small : (c : Command) → Small (dispatch_parsed d clock c b)
  unfolding dispatch_parsed
  dispatch_parsed-Small c =
      either-Small (destructive c) _ _ (echo-Small c) (run_command-Small d c b h)

  on_parsed-Small : (p : Parsed) → Small (on_parsed d clock p b)
  on_parsed-Small (understood c) = dispatch_parsed-Small c
  on_parsed-Small not_understood = h
  on_parsed-Small unreachable = h

  on_text-Small : (body : Text) → Small (on_text d clock body b)
  unfolding on_text
  on_text-Small [] = h
  on_text-Small (c ∷ body) = on_parsed-Small (d.parse (c ∷ body))

  popped-Small : (token : Text) → Small (record b { pending = (pop clock token b.pending).1 })
  popped-Small token = omega (arith, length-pop clock token b.pending)

  confirm_popped-Small :
      (token : Text) (o : Option Command)
      → Small (confirm_popped d o (record b { pending = (pop clock token b.pending).1 }))
  confirm_popped-Small token none = popped-Small token
  confirm_popped-Small token (some c) =
      run_command-Small d (confirmed_copy c) _ (popped-Small token)

  cb_yes-Small : (token : Text) → Small (cb_yes d clock token b)
  unfolding cb_yes
  cb_yes-Small token = confirm_popped-Small token (pop clock token b.pending).0

  cb_no-Small : (token : Text) → Small (cb_no clock token b)
  unfolding cb_no
  cb_no-Small token = popped-Small token

  cb_approve-Small : (o : Option ℕ) → Small (cb_approve d o b)
  cb_approve-Small none = h
  cb_approve-Small (some i) = run_command-Small d _ b h

  on_callback-Small : (parts : Text × Text) → Small (on_callback d clock parts b)
  unfolding on_callback
  on_callback-Small (prefix, payload) =
      either-Small (text_eq prefix (text "no")) _ _ (cb_no-Small payload) (
        either-Small (text_eq prefix (text "yes")) _ _ (cb_yes-Small payload) (
          either-Small (text_eq prefix (text "approve")) _ _
            (cb_approve-Small (d.read_uuid payload))
            (either-Small (text_eq prefix (text "drop")) _ _ h h)))

  on_content-Small : (content : Content) → Small (on_content d clock content b)
  unfolding on_content
  on_content-Small cmd_help = h
  on_content-Small cmd_list = run_command-Small d _ b h
  on_content-Small cmd_kill = echo-Small _
  on_content-Small (message body) = on_text-Small body
  on_content-Small (callback []) = h
  on_content-Small (callback (c ∷ payload)) = on_callback-Small (partition (c ∷ payload))

on_update-Small : (d : BotDeps) (u : Update) (b : Bot) → Small b → Small (on_update d u b)
unfolding on_update
on_update-Small d u b h =
    either-Small (is_allowed d u.user) _ _ (on_content-Small d u.clock b h u.content) h

-- However many updates come, whatever they hold and whoever sends them: if at most 256
-- confirmations wait at the start, at most 256 wait at the end.
pub run_polling-Small :
    (d : BotDeps) (us : List Update) (b : Bot) → Small b → Small (run_polling d us b)
unfolding run_polling
run_polling-Small d [] b h = h
run_polling-Small d (u ∷ us) b h =
    run_polling-Small d us (on_update d u b) (on_update-Small d u b h)
