-- ===== src/Telegram/Bot/Gate.antt =====
-- Who can make the bot do what.
use ai_dev_swarm.Common.{
  ℕ, ◌≡◌, refl, ◌∙◌, ap, Bool, true, false, List, [], ◌∷◌, Option, none, some, Text, text, text_eq,
  select, any, if◌then◌else◌, Bool-cases, inl, inr,
}
use ai_dev_swarm.Schemas.Command.{Command, approve, list_state, destructive}
use ai_dev_swarm.Schemas.Exceptions.{Result, ok, raise}
use ai_dev_swarm.Router.{CommandResult, dispatch}
use ai_dev_swarm.Telegram.Pending.{has_token, pop}
use ai_dev_swarm.Telegram.Pending.Bound.{Waiting, pop-Waiting, popped_is_gone}
use ai_dev_swarm.Telegram.Bot.{
  BotDeps, Bot, Update, Content, cmd_help, cmd_list, cmd_kill, message, callback, Parsed,
  understood, not_understood, unreachable, is_allowed, answer, run_command, echo_for_confirmation,
  dispatch_parsed, on_parsed, on_text, partition, confirmed_copy, cb_no, confirm_popped, cb_yes,
  cb_approve, on_callback, on_content, on_update, run_polling,
}

-- What one update may do to the store.
pub data Effect (d : BotDeps) (u : Update) (b t : Bot) : Type 0 where
  -- nothing, but that a token was drawn
  quiet : t.store ≡ record b.store { next_id = t.store.next_id } → Effect d u b t
  -- an allowed user's command that destroys nothing
  ordinary :
      (c : Command)
      → is_allowed d u.user ≡ true
      → destructive c ≡ false
      → t.store ≡ (dispatch d.router c b.store).1
      → Effect d u b t
  -- an allowed user's tap on the button of a command that waits, which does not wait any more
  tapped :
      (token : Text) (c : Command)
      → is_allowed d u.user ≡ true
      → Waiting u.clock token c b.pending
      → any (has_token token) t.pending ≡ false
      → t.store ≡ (dispatch d.router (confirmed_copy c) b.store).1
      → Effect d u b t

store-answer : (r : Result CommandResult) (b : Bot) → (answer r b).store ≡ b.store
store-answer (ok r) b = refl
store-answer (raise e) b = refl

pending-answer : (r : Result CommandResult) (b : Bot) → (answer r b).pending ≡ b.pending
pending-answer (ok r) b = refl
pending-answer (raise e) b = refl

pub store-run_command :
    (d : BotDeps) (c : Command) (b : Bot)
    → (run_command d c b).store ≡ (dispatch d.router c b.store).1
unfolding run_command
store-run_command d c b = store-answer (dispatch d.router c b.store).0 _

pub pending-run_command :
    (d : BotDeps) (c : Command) (b : Bot) → (run_command d c b).pending ≡ b.pending
unfolding run_command
pending-run_command d c b = pending-answer (dispatch d.router c b.store).0 _

module _ (d : BotDeps) (u : Update) (b : Bot) (allowed : is_allowed d u.user ≡ true) where
  echo-Effect : (c : Command) → Effect d u b (echo_for_confirmation d u.clock c b)
  unfolding echo_for_confirmation
  echo-Effect c = quiet refl

  run-Effect : (c : Command) → destructive c ≡ false → Effect d u b (run_command d c b)
  run-Effect c h = ordinary c allowed h (store-run_command d c b)

  dispatch_parsed-Effect : (c : Command) → Effect d u b (dispatch_parsed d u.clock c b)
  unfolding dispatch_parsed
  dispatch_parsed-Effect c = elim (Bool-cases (destructive c)) [
    | inl h ↦ rw h (echo-Effect c)
    | inr h ↦ rw h (run-Effect c h)
  ]

  on_parsed-Effect : (p : Parsed) → Effect d u b (on_parsed d u.clock p b)
  on_parsed-Effect (understood c) = dispatch_parsed-Effect c
  on_parsed-Effect not_understood = quiet refl
  on_parsed-Effect unreachable = quiet refl

  on_text-Effect : (body : Text) → Effect d u b (on_text d u.clock body b)
  unfolding on_text
  on_text-Effect [] = quiet refl
  on_text-Effect (c ∷ body) = on_parsed-Effect (d.parse (c ∷ body))

  confirm_popped-Effect :
      (token : Text) (o : Option Command)
      → (pop u.clock token b.pending).0 ≡ o
      → Effect d u b (confirm_popped d o (record b { pending = (pop u.clock token b.pending).1 }))
  confirm_popped-Effect token none e = quiet refl
  confirm_popped-Effect token (some c) e =
      let b' : Bot = record b { pending = (pop u.clock token b.pending).1 } in
      tapped token c allowed (pop-Waiting u.clock token b.pending c e)
        (ap (any (has_token token)) (pending-run_command d (confirmed_copy c) b')
          ∙ popped_is_gone u.clock token b.pending)
        (store-run_command d (confirmed_copy c) b')

  cb_yes-Effect : (token : Text) → Effect d u b (cb_yes d u.clock token b)
  unfolding cb_yes
  cb_yes-Effect token = confirm_popped-Effect token (pop u.clock token b.pending).0 refl

  cb_no-Effect : (token : Text) → Effect d u b (cb_no u.clock token b)
  unfolding cb_no
  cb_no-Effect token = quiet refl

  cb_approve-Effect : (o : Option ℕ) → Effect d u b (cb_approve d o b)
  unfolding destructive
  cb_approve-Effect none = quiet refl
  cb_approve-Effect (some i) = run-Effect (approve i) refl

  either :
      (c : Bool) (x y : Bot) → Effect d u b x → Effect d u b y → Effect d u b (if c then x else y)
  either true x y ex ey = ex
  either false x y ex ey = ey

  on_callback-Effect : (parts : Text × Text) → Effect d u b (on_callback d u.clock parts b)
  unfolding on_callback
  on_callback-Effect (prefix, payload) =
      either (text_eq prefix (text "no")) _ _ (cb_no-Effect payload) (
        either (text_eq prefix (text "yes")) _ _ (cb_yes-Effect payload) (
          either (text_eq prefix (text "approve")) _ _ (cb_approve-Effect (d.read_uuid payload))
            (either (text_eq prefix (text "drop")) _ _ (quiet refl) (quiet refl))))

  on_content-Effect : (content : Content) → Effect d u b (on_content d u.clock content b)
  unfolding on_content destructive
  on_content-Effect cmd_help = quiet refl
  on_content-Effect cmd_list = run-Effect (list_state none) refl
  on_content-Effect cmd_kill = echo-Effect _
  on_content-Effect (message body) = on_text-Effect body
  on_content-Effect (callback []) = quiet refl
  on_content-Effect (callback (c ∷ payload)) = on_callback-Effect (partition (c ∷ payload))

-- One update changes the store in no other way than these: it draws a token; or it runs, for a user
-- on the allow-list, a command that is not destructive; or it runs, for such a user, the confirmed
-- copy of a command that was waiting under a token, not expired, and that token is then gone.
pub on_update-Effect : (d : BotDeps) (u : Update) (b : Bot) → Effect d u b (on_update d u b)
unfolding on_update
on_update-Effect d u b = elim (Bool-cases (is_allowed d u.user)) [
  | inl h ↦ rw h (on_content-Effect d u b h u.content)
  | inr h ↦ rw h (quiet refl)
]

stranger : (d : BotDeps) (u : Update) (b : Bot) → is_allowed d u.user ≡ false → on_update d u b ≡ b
unfolding on_update
stranger d u b h = rw h refl

-- The users that are not on the allow-list have no influence: whatever they send and whenever, the
-- bot ends as if it had only received the updates of the others.
pub strangers_do_nothing :
    (d : BotDeps) (us : List Update) (b : Bot)
    → run_polling d us b ≡ run_polling d (select (λ u. is_allowed d u.user) us) b
unfolding run_polling
strangers_do_nothing d [] b = refl
strangers_do_nothing d (u ∷ us) b = elim (Bool-cases (is_allowed d u.user)) [
  | inl h ↦ rw h (strangers_do_nothing d us (on_update d u b))
  | inr h ↦ rw (h, stranger d u b h) (strangers_do_nothing d us b)
]
