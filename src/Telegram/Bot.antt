-- ===== src/Telegram/Bot.antt =====
-- telegram/bot.py, `TelegramBot`: the allow-list, the handlers, and the confirmation of
-- destructive commands. The texts of the replies are represented by the cases that send them.
pub mod Gate
pub mod Confirm
pub mod Size
use ai_dev_swarm.Common.{
  ℕ, suc, ◌==◌, Bool, true, false, not, List, [], ◌∷◌, ◌++◌, Option, none, some, Text, text,
  text_eq, any, if◌then◌else◌,
}
use ai_dev_swarm.Schemas.Command.{
  Command, approve, list_state, abort_project, rescope, transform_project, drop_and_start_new,
  switch_to_idea, reject_idea, kill_switch, destructive,
}
use ai_dev_swarm.Schemas.Exceptions.{Result, ok, raise}
use ai_dev_swarm.Store.State.{State}
use ai_dev_swarm.Router.{RouterDeps, CommandResult, Answer, dispatch}
use ai_dev_swarm.Telegram.Pending.{Item, set_item, pop}

-- What `parser.parse` does with a text: a command, an `IntentParseError`, or another failure.
pub data Parsed : Type 0 where
  understood : Command → Parsed
  not_understood unreachable : Parsed

-- The collaborators: the router, the parser, the fresh `uuid4().hex`, and `UUID(text)`.
pub record BotDeps : Type 0 where
  pub router : RouterDeps
  pub allowed_user_ids : List ℕ
  pub parse : Text → Parsed
  pub fresh_token : ℕ → Text
  pub read_uuid : Text → Option ℕ

pub data Reply : Type 0 where
  help did_not_understand try_again cancelled expired_confirmation drop_hint : Reply
  answered : Answer → Reply
  confirm : (command : Command) (yes_data no_data : Text) → Reply

-- The updates that the registered handlers receive.
pub data Content : Type 0 where
  cmd_help cmd_list cmd_kill : Content
  message : (body : Text) → Content
  callback : (payload : Text) → Content

pub record Update : Type 0 where
  pub user : Option ℕ
  pub clock : ℕ
  pub content : Content

pub record Bot : Type 0 where
  pub pending : List Item
  pub store : State
  pub replies : List Reply

-- `_is_allowed`
unfoldable pub is_allowed : BotDeps → Option ℕ → Bool
is_allowed d none = false
is_allowed d (some user_id) = any (λ i. i == user_id) d.allowed_user_ids

abbrev pub reply : Reply → Bot → Bot
reply r b = record b { replies = b.replies ++ r ∷ [] }

-- `router.dispatch(command)` and the reply; what it raises ends the handler.
abbrev pub answer : Result CommandResult → Bot → Bot
answer (ok r) b = reply (answered r.answer) b
answer (raise e) b = b

unfoldable pub run_command : BotDeps → Command → Bot → Bot
run_command d command b =
    let (r, s) = dispatch d.router command b.store in answer r (record b { store = s })

-- `_echo_for_confirmation`
unfoldable pub echo_for_confirmation : BotDeps → ℕ → Command → Bot → Bot
echo_for_confirmation d clock command b =
    let token = d.fresh_token b.store.next_id in
    reply (confirm command (text "yes:" ++ token) (text "no:" ++ token)) (record b {
      pending = set_item clock token command b.pending;
      store = record b.store { next_id = suc b.store.next_id };
    })

-- `_dispatch`
unfoldable pub dispatch_parsed : BotDeps → ℕ → Command → Bot → Bot
dispatch_parsed d clock command b =
    if destructive command then echo_for_confirmation d clock command b else run_command d command b

-- `_on_text`, on what the parser says.
abbrev pub on_parsed : BotDeps → ℕ → Parsed → Bot → Bot
on_parsed d clock (understood command) b = dispatch_parsed d clock command b
on_parsed d clock not_understood b = reply did_not_understand b
on_parsed d clock unreachable b = reply try_again b

unfoldable pub on_text : BotDeps → ℕ → Text → Bot → Bot
on_text d clock [] b = b
on_text d clock (c ∷ body) b = on_parsed d clock (d.parse (c ∷ body)) b

-- `data.partition(":")`
abbrev pub colon : ℕ
colon = b':'

abbrev pub cons_prefix : ℕ → Text × Text → Text × Text
cons_prefix c (prefix, payload) = (c ∷ prefix, payload)

unfoldable pub partition : Text → Text × Text
partition [] = ([], [])
partition (c ∷ s) = let rest = partition s in if c == colon then ([], s) else cons_prefix c rest

-- `command.model_copy(update={"confirmed": True})`
unfoldable pub confirmed_copy : Command → Command
confirmed_copy (abort_project i reason c) = abort_project i reason true
confirmed_copy (rescope i scope c) = rescope i scope true
confirmed_copy (transform_project i scope c) = transform_project i scope true
confirmed_copy (drop_and_start_new i c) = drop_and_start_new i true
confirmed_copy (switch_to_idea i idea c) = switch_to_idea i idea true
confirmed_copy (reject_idea i c) = reject_idea i true
confirmed_copy (kill_switch reason c) = kill_switch reason true
confirmed_copy command = command

-- `_cb_no`
unfoldable pub cb_no : ℕ → Text → Bot → Bot
cb_no clock token b = reply cancelled (record b { pending = (pop clock token b.pending).1 })

-- `_cb_yes`, on what was popped.
abbrev pub confirm_popped : BotDeps → Option Command → Bot → Bot
confirm_popped d none b = reply expired_confirmation b
confirm_popped d (some command) b = run_command d (confirmed_copy command) b

unfoldable pub cb_yes : BotDeps → ℕ → Text → Bot → Bot
cb_yes d clock token b =
    let (popped, items) = pop clock token b.pending in
    confirm_popped d popped (record b { pending = items })

-- `_cb_approve`, on `UUID(payload)`.
abbrev pub cb_approve : BotDeps → Option ℕ → Bot → Bot
cb_approve d none b = b
cb_approve d (some i) b = run_command d (approve i) b

-- `_on_callback`, on the partitioned data.
unfoldable pub on_callback : BotDeps → ℕ → Text × Text → Bot → Bot
on_callback d clock (prefix, payload) b =
    if text_eq prefix (text "no")
    then cb_no clock payload b
    else if text_eq prefix (text "yes")
    then cb_yes d clock payload b
    else if text_eq prefix (text "approve")
    then cb_approve d (d.read_uuid payload) b
    else if text_eq prefix (text "drop")
    then reply drop_hint b
    else b

unfoldable pub on_content : BotDeps → ℕ → Content → Bot → Bot
on_content d clock cmd_help b = reply help b
on_content d clock cmd_list b = run_command d (list_state none) b
on_content d clock cmd_kill b =
    echo_for_confirmation d clock (kill_switch (text "operator /kill") false) b
on_content d clock (message body) b = on_text d clock body b
on_content d clock (callback []) b = b
on_content d clock (callback (c ∷ payload)) b = on_callback d clock (partition (c ∷ payload)) b

-- A handler: the allow-list stands first in each of them.
unfoldable pub on_update : BotDeps → Update → Bot → Bot
on_update d u b = if is_allowed d u.user then on_content d u.clock u.content b else b

-- The updates that a bot receives, in their order.
unfoldable pub run_polling : BotDeps → List Update → Bot → Bot
run_polling d [] b = b
run_polling d (u ∷ us) b = run_polling d us (on_update d u b)
