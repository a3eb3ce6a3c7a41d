-- ===== src/Purchase/Dialogue.antt =====
-- apps/bot/handlers/user/purchase.py: the dialogue of a purchase, from the plan to the way of payment.
-- A text that another router takes first, such as a menu's button, is not of the dialogue, and the
-- texts that `safe_edit_or_send` shows are left out.
pub mod Kept
pub mod Orderly
pub mod Carried
use marzbot.Base.{
  ℕ, ◌≡◌, Bool, true, false, not, ◌&&◌, ◌||◌, Option, none, some, List, [], ◌∷◌, leb, ◌==◌, length,
  get_or, is_some, if◌then◌else◌,
}
use marzbot.Base.Text.{codes_eq, strip, upper}
use marzbot.Base.Table.{find}
use marzbot.Models.{Uuid, Str, Plan, DiscountCode, XuiClientRecord}
use marzbot.Session.{
  Session, Action, Exn, Outside, Call, Text, State, Fsm, pure, gets, or_raise, modify_session,
  call_telegram, clear_state, set_state, managed, final, ◌>>=◌, ◌>>◌,
}
use marzbot.Discount.{validate_code}
use marzbot.Provisioning.{plan_has_id, usable_plan}
use marzbot.Purchase.{pay_with_wallet}
use marzbot.Purchase.Gateway.{pay_with_gateway}

-- `[a-zA-Z0-9_\-]`
unfoldable pub is_name_char : ℕ → Bool
is_name_char c =
    leb 97 c && leb c 122 || leb 65 c && leb c 90 || leb 48 c && leb c 57 || c == 95 || c == 45

abbrev pub all_name_chars : Str → Bool
all_name_chars [] = true
all_name_chars (c ∷ s) = is_name_char c && all_name_chars s

-- `CONFIG_NAME_PATTERN`
unfoldable pub is_config_name : Str → Bool
is_config_name s = leb 3 (length s) && leb (length s) 32 && all_name_chars s

abbrev pub has_username : Str → XuiClientRecord → Bool
has_username name c = codes_eq c.username name

-- `state.update_data(…)`
abbrev pub update_data : (Fsm → Fsm) → Action (Unit {0})
update_data f = modify_session λ s. record s { fsm = f s.fsm }

abbrev pub with_plan : Uuid → Fsm → Fsm
with_plan i f = record f { plan_id = some i }

abbrev pub with_name : Str → Fsm → Fsm
with_name name f = record f { config_name = some name }

abbrev pub with_discount : DiscountCode → Fsm → Fsm
with_discount d f = record f { discount_percent = some d.discount_percent; discount_id = some d.id }

-- `update_data(discount_code=None, discount_percent=0)`
abbrev pub without_discount : Fsm → Fsm
without_discount f = record f { discount_percent = some 0 }

-- `plan_selected_ask_name`, by the UUID that the callback's data holds.
unfoldable pub select_usable : Uuid → Option Plan → Action (Unit {0})
select_usable i none = pure tt
select_usable i (some plan) = do update_data (with_plan i); set_state State.waiting_for_config_name

unfoldable pub select_by_id : Option Uuid → Action (Unit {0})
unfolding select_usable
select_by_id none = pure tt
select_by_id (some i) = do
  plan ← gets (λ s. usable_plan (find (plan_has_id i) s.plans))
  select_usable i plan

unfoldable pub plan_selected_ask_name : Outside → Option Uuid → Action (Unit {0})
unfolding select_by_id
plan_selected_ask_name o i = call_telegram o Call.answer_callback >> select_by_id i

-- What a user may send: a plan's button, a text, and the buttons of the dialogue, which stay on the
-- screen and work in every state.
pub data Update : Type 0 where
  select_plan : Option Uuid → Update
  write : Option Str → Update
  skip_discount pay_wallet pay_gateway cancel : Update

module _ (o : Outside) (telegram_id : ℕ) where
  -- `message.answer`
  abbrev pub reply : Text → Action (Unit {0})
  reply text = call_telegram o (Call.send_message telegram_id text)

  unfoldable pub accept_name : Str → (is_valid is_taken : Bool) → Action (Unit {0})
  accept_name name false is_taken = reply Text.name_invalid
  accept_name name true true = reply Text.name_taken
  accept_name name true false = do
    update_data (with_name name)
    set_state State.waiting_for_discount_code
    reply Text.ask_discount

  unfoldable pub config_name_entered : Option Str → Action (Unit {0})
  unfolding accept_name
  config_name_entered none = pure tt
  config_name_entered (some text) = do
    let name = strip text
    taken ← gets (λ s. is_some (find (has_username name) s.xui_clients))
    accept_name name (is_config_name name) taken

  -- `_show_payment_method_choice`, which shows by `safe_edit_or_send`
  unfoldable pub show_choice : Option Plan → Action (Unit {0})
  show_choice none = clear_state
  show_choice (some plan) = pure tt

  -- `_show_payment_method_choice_msg`
  unfoldable pub show_choice_msg : Option Plan → Action (Unit {0})
  show_choice_msg none = clear_state >> reply Text.plan_not_available
  show_choice_msg (some plan) = reply Text.choose_payment

  unfoldable pub skip_discount_code : Action (Unit {0})
  unfolding show_choice
  skip_discount_code = do
    call_telegram o Call.answer_callback
    update_data without_discount
    chosen ← gets (λ s. s.fsm.plan_id)
    plan_id ← or_raise chosen Exn.key_error
    plan ← gets (λ s. find (plan_has_id plan_id) s.plans)
    show_choice plan

  unfoldable pub accept_code : Uuid → Option DiscountCode → Action (Unit {0})
  unfolding show_choice_msg
  accept_code plan_id none = reply Text.discount_invalid
  accept_code plan_id (some discount) = do
    update_data (with_discount discount)
    plan ← gets (λ s. find (plan_has_id plan_id) s.plans)
    show_choice_msg plan

  unfoldable pub discount_code_entered : Option Str → Action (Unit {0})
  unfolding accept_code
  discount_code_entered none = pure tt
  discount_code_entered (some text) = do
    chosen ← gets (λ s. s.fsm.plan_id)
    plan_id ← or_raise chosen Exn.key_error
    discount ← gets (λ s. validate_code (upper (strip text)) (some plan_id) (o.utcnow s) s)
    accept_code plan_id discount

  -- `cancel_purchase`
  unfoldable pub cancel_purchase : Action (Unit {0})
  cancel_purchase = call_telegram o Call.answer_callback >> clear_state

  -- The handler that the state gives a text to.
  unfoldable pub text_entered : State → Option Str → Action (Unit {0})
  unfolding config_name_entered discount_code_entered
  text_entered State.waiting_for_config_name text = config_name_entered text
  text_entered State.waiting_for_discount_code text = discount_code_entered text
  text_entered _ text = pure tt

  -- The router's filters.
  unfoldable pub route : Update → Action (Unit {0})
  route (Update.select_plan i) s = plan_selected_ask_name o i s
  route (Update.write m) s = text_entered s.fsm.state m s
  route Update.skip_discount s = skip_discount_code s
  route Update.pay_wallet s = pay_with_wallet o telegram_id s
  route Update.pay_gateway s = pay_with_gateway o telegram_id s
  route Update.cancel s = cancel_purchase s

  -- The sessions that updates of the user lead to. Between two of them the rows may change in any
  -- way, by other users, jobs and callbacks.
  pub data Reaches (s : Session) : Session → Type 0 where
    start : Reaches s s
    handled : {t : Session} → Reaches s t → (u : Update) → Reaches s (final (managed (route u) t))
    meanwhile : {t : Session} → Reaches s t → (t' : Session) → t'.fsm ≡ t.fsm → Reaches s t'
