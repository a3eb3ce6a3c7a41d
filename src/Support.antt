-- ===== src/Support.antt =====
-- Support tickets: repositories/ticket.py, apps/bot/handlers/user/support.py and
-- apps/bot/handlers/admin/support.py. The lists and views of tickets only show rows. A text that
-- Telegram delivers is not empty, so `none` is its absence.
pub mod Reply
pub mod Counting
pub mod Single
pub mod Reopened
use marzbot.Base.{
  ℕ, Bool, true, false, ◌&&◌, ◌||◌, Option, none, some, List, [], ◌∷◌, map, ◌==◌, is_some, str_eq,
  if◌then◌else◌,
}
use marzbot.Base.Text.{strip}
use marzbot.Base.Table.{find, modify, select}
use marzbot.Models.{Uuid, Str, User, Ticket, TicketMessage, TicketStatus, opened, answered, closed}
use marzbot.Session.{
  Session, Action, Exn, Outside, Call, Text, FormState, Form, pure, draw, gets, modify_session,
  catch_if, call_telegram, update_form, ◌>>=◌, ◌>>◌,
}
use marzbot.Notifications.{is_admin}
use marzbot.Purchase.{get_by_telegram_id}
use marzbot.Accounts.{set_user}

-- What a message holds. A text that Telegram sends is not empty.
pub record Content : Type 0 where
  pub text : Option Str
  pub caption : Option Str
  pub photo : Option Str

-- `message.text or message.caption`, stripped
abbrev pub said : Content → Option Str
said c = elim c.text [
  | some t ↦ some (strip t)
  | none ↦ elim c.caption [ some t ↦ some (strip t) | none ↦ none ]
]

abbrev pub is_nothing : Content → Bool
is_nothing c = elim c.text [ some t ↦ false | none ↦ elim c.photo [ some p ↦ false | none ↦ true ] ]

-- `Ticket.status.in_(["open", "answered"])`
abbrev pub is_open : TicketStatus → Bool
is_open opened = true
is_open answered = true
is_open closed = false

abbrev pub open_for : Uuid → Ticket → Bool
open_for user_id t = t.user_id == user_id && is_open t.status

abbrev pub ticket_has_id : Uuid → Ticket → Bool
ticket_has_id i t = t.id == i

-- `get_open_ticket_for_user`: the latest
abbrev pub get_open_ticket_for_user : Uuid → Session → Option Ticket
get_open_ticket_for_user user_id s = find (open_for user_id) s.tickets

abbrev pub with_status : TicketStatus → Ticket → Ticket
with_status st t = record t { status = st }

-- A ticket that was answered is open again.
abbrev pub asked_again : Ticket → Ticket
asked_again t = elim t.status [ answered ↦ with_status opened t | _ ↦ t ]

-- `User.role.in_(["admin", "owner"]), User.status == "active"`
abbrev pub is_active_admin : User → Bool
is_active_admin u = is_admin u && str_eq u.status "active"

abbrev pub blocked : User → User
blocked u = record u { is_bot_blocked = true }

-- `except (TelegramForbiddenError, TelegramBadRequest)`
abbrev pub is_refusal : Exn → Bool
is_refusal Exn.telegram_forbidden = true
is_refusal Exn.telegram_bad_request = true
is_refusal _ = false

-- A photo goes by `send_photo`, a text by `send_message`.
abbrev pub delivery : ℕ → Option Str → Text → Call
delivery chat none text = Call.send_message chat text
delivery chat (some photo) text = Call.send_photo chat

module _ (o : Outside) where
  unfoldable pub create_ticket : Uuid → Action Uuid
  create_ticket user_id = do
    id ← draw o
    modify_session λ s. record s {
      tickets = record { id = id; user_id = user_id; status = opened } ∷ s.tickets;
    }
    pure id

  unfoldable pub add_message : Uuid → Uuid → Content → Action (Unit {0})
  add_message ticket_id sender_id c = do
    id ← draw o
    modify_session λ s. record s {
      ticket_messages =
          record {
            id = id;
            ticket_id = ticket_id;
            sender_id = sender_id;
            text = said c;
            photo_id = c.photo;
          }
          ∷ s.ticket_messages;
    }

  -- The ticket that the message belongs to, and whether it is new.
  unfoldable pub ticket_for : Uuid → Option Ticket → Action (Uuid × Bool)
  unfolding create_ticket
  ticket_for user_id none = do id ← create_ticket user_id; pure (id, true)
  ticket_for user_id (some t) = do
    modify_session (λ s. record s { tickets = modify (open_for user_id) asked_again s.tickets })
    pure (t.id, false)

  unfoldable pub alert_one : User → Content → Action (Unit {0})
  alert_one admin c =
      catch_if is_refusal (call_telegram o (delivery admin.telegram_id c.photo Text.ticket_alert))
        (λ e. modify_session (set_user admin.id blocked))

  unfoldable pub alert_admins : List User → Content → Action (Unit {0})
  unfolding alert_one
  alert_admins [] c = pure tt
  alert_admins (u ∷ us) c = alert_one u c >> alert_admins us c

  abbrev pub reply : ℕ → Text → Action (Unit {0})
  reply chat text = call_telegram o (Call.send_message chat text)

  unfoldable pub submit_of : User → Content → Action (Unit {0})
  unfolding ticket_for add_message alert_admins
  submit_of u c = do
    found ← gets (get_open_ticket_for_user u.id)
    (ticket_id, is_new) ← ticket_for u.id found
    add_message ticket_id u.id c
    reply u.telegram_id (if is_new then Text.ticket_created else Text.message_recorded)
    admins ← gets (λ s. select is_active_admin s.users)
    alert_admins admins c

  unfoldable pub submit_by : ℕ → Option User → Content → Action (Unit {0})
  unfolding submit_of
  submit_by telegram_id none c = reply telegram_id Text.account_not_found
  submit_by telegram_id (some u) c = submit_of u c

  unfoldable pub submit_unless : Bool → ℕ → Content → Action (Unit {0})
  unfolding submit_by
  submit_unless true telegram_id c = pure tt
  submit_unless false telegram_id c = do
    u ← gets (get_by_telegram_id telegram_id)
    submit_by telegram_id u c

  unfoldable pub support_submit : ℕ → Content → Action (Unit {0})
  unfolding submit_unless
  support_submit telegram_id c = submit_unless (is_nothing c) telegram_id c

  unfoldable pub start_for : ℕ → Option User → Action (Unit {0})
  start_for telegram_id none = reply telegram_id Text.account_not_found
  start_for telegram_id (some u) = do
    update_form (λ f. record f { state = FormState.waiting_for_issue })
    reply telegram_id Text.done

  -- `support_start`, whose answer shows the last messages of an open ticket.
  unfoldable pub support_start : ℕ → Action (Unit {0})
  unfolding start_for
  support_start telegram_id = do u ← gets (get_by_telegram_id telegram_id); start_for telegram_id u
