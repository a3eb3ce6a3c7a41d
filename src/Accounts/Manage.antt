-- ===== src/Accounts/Manage.antt =====
-- apps/bot/handlers/admin/users.py: what an administrator does to a user. What `safe_edit_or_send`
-- shows is left out: it raises nothing and changes no row. A text that is sent is given with what
-- `int`, `Decimal` or `UUID` makes of it, where the code reads it so; NaN and infinity are left out.
use marzbot.Base.{Bool, true, false, ◌==◌, Option, none, some, str_eq, is_some, if◌then◌else◌}
use marzbot.Base.Int.{pos, abs, ltb_ℤ}
use marzbot.Base.Decimal.{Decimal}
use marzbot.Base.Table.{find}
use marzbot.Models.{Uuid, User}
use marzbot.Session.{
  Session, Action, Outside, Call, Text, Form, FormState, pure, gets, modify_session, catch,
  call_telegram, clear_form, update_form, log_action, ◌>>=◌, ◌>>◌,
}
use marzbot.Wallet.{Request, get_by_user_id, process_transaction}
use marzbot.Accounts.{user_has_id, set_user}

-- The user of an id, and the one who has a wallet.
abbrev pub user_at : Uuid → Session → Option User
user_at i s = find (user_has_id i) s.users

abbrev pub with_wallet : Option User → Session → Option User
with_wallet none s = none
with_wallet (some u) s = if is_some (get_by_user_id u.id s) then some u else none

unfoldable pub adjustment : Uuid → Decimal → Request
unfolding abs
adjustment user_id amount = record {
  user_id = user_id;
  amount = record { coefficient = pos (abs amount.coefficient); places = amount.places };
  type = "admin_adjustment";
  direction = if ltb_ℤ (pos 0) amount.coefficient then "credit" else "debit";
  currency = "USD";
  reference_type = some "manual";
  reference_id = none;
}

abbrev pub turned : User → User
turned u =
    if str_eq u.status "banned"
    then record u { status = "active"; is_bot_blocked = false }
    else record u { status = "banned"; is_bot_blocked = true }

abbrev pub other_role : User → User
other_role u = record u { role = if str_eq u.role "user" then "admin" else "user" }

abbrev pub for_user : FormState → Uuid → Form → Form
for_user state i f = record f { state = state; target_user_id = some i }

module _ (o : Outside) (admin : User) where
  -- `message.answer` and `callback.answer`
  abbrev pub reply : Text → Action (Unit {0})
  reply text = call_telegram o (Call.send_message admin.telegram_id text)

  abbrev pub answer_click : Action (Unit {0})
  answer_click = call_telegram o Call.answer_callback

  unfoldable pub admin_edit_balance_prompt : Uuid → Action (Unit {0})
  admin_edit_balance_prompt i =
      answer_click >> update_form (for_user FormState.waiting_for_balance_adjustment i)

  -- The money, and the row of the audit log.
  unfoldable pub adjust_balance : Decimal → Option User → Action (Unit {0})
  unfolding adjustment
  adjust_balance amount none = clear_form >> reply Text.user_not_found
  adjust_balance amount (some u) = do
    process_transaction (adjustment u.id amount)
    log_action admin.id "adjust_balance" "user" u.id
    clear_form
    reply Text.done

  unfoldable pub submit_unless : (is_zero : Bool) → Uuid → Decimal → Action (Unit {0})
  unfolding adjust_balance
  submit_unless true i amount = reply Text.invalid_input
  submit_unless false i amount = do
    u ← gets (λ s. with_wallet (user_at i s) s)
    adjust_balance amount u

  unfoldable pub submit_amount : Uuid → Option Decimal → Action (Unit {0})
  unfolding submit_unless abs
  submit_amount i none = reply Text.invalid_input
  submit_amount i (some amount) = submit_unless (abs amount.coefficient == 0) i amount

  unfoldable pub submit_for : Option Uuid → Option Decimal → Action (Unit {0})
  unfolding submit_amount
  submit_for none amount = clear_form >> reply Text.user_not_found
  submit_for (some i) amount = submit_amount i amount

  -- A message with no text is ignored; `amount` is what its text spells, if it spells a number.
  unfoldable pub admin_edit_balance_submit : (has_text : Bool) → Option Decimal → Action (Unit {0})
  unfolding submit_for
  admin_edit_balance_submit false amount = pure tt
  admin_edit_balance_submit true amount = do
    target ← gets (λ s. s.form.target_user_id)
    submit_for target amount

  unfoldable pub toggle_found : Option User → Action (Unit {0})
  toggle_found none = pure tt
  toggle_found (some u) = do
    modify_session (set_user u.id turned)
    log_action admin.id "toggle_ban" "user" u.id

  unfoldable pub admin_toggle_ban : Uuid → Action (Unit {0})
  unfolding toggle_found
  admin_toggle_ban i = do answer_click; u ← gets (user_at i); toggle_found u

  unfoldable pub admin_send_msg_prompt : Uuid → Action (Unit {0})
  admin_send_msg_prompt i =
      answer_click >> update_form (for_user FormState.waiting_for_message_to_user i)

  -- Whatever goes wrong with the message, the administrator is told of it.
  unfoldable pub send_to : Option User → Action (Unit {0})
  send_to none = clear_form >> reply Text.user_not_found
  send_to (some u) = do
    catch
        (call_telegram o (Call.send_message u.telegram_id Text.message_from_admin)
          >> reply Text.done)
        (λ e. reply Text.invalid_input)
    clear_form

  unfoldable pub send_for : Option Uuid → Action (Unit {0})
  unfolding send_to
  send_for none = clear_form >> reply Text.user_not_found
  send_for (some i) = do u ← gets (user_at i); send_to u

  unfoldable pub admin_send_msg_submit : (has_text : Bool) → Action (Unit {0})
  unfolding send_for
  admin_send_msg_submit false = pure tt
  admin_send_msg_submit true = do target ← gets (λ s. s.form.target_user_id); send_for target

  -- The owner's role is not changed.
  unfoldable pub change_role : Option User → Action (Unit {0})
  change_role none = pure tt
  change_role (some u) =
      if u.telegram_id == o.owner_telegram_id
      then pure tt
      else modify_session (set_user u.id other_role)

  unfoldable pub admin_user_toggle_admin : Uuid → Action (Unit {0})
  unfolding change_role
  admin_user_toggle_admin i = do answer_click; u ← gets (user_at i); change_role u
