-- ===== src/Support/Reply.antt =====
-- apps/bot/handlers/admin/support.py: an administrator's reply to a ticket, and its end.
use marzbot.Base.{Bool, true, false, Option, none, some}
use marzbot.Base.Table.{find, modify}
use marzbot.Models.{Uuid, User, Ticket, TicketStatus, answered, closed}
use marzbot.Session.{
  Session, Action, Exn, Outside, Call, Text, FormState, pure, gets, modify_session, catch_if,
  call_telegram, clear_form, update_form, log_action, ◌>>=◌, ◌>>◌,
}
use marzbot.Accounts.{user_has_id, set_user}
use marzbot.Support.{Content, delivery, ticket_has_id, with_status, blocked, add_message}

-- A ticket with the user it belongs to.
abbrev pub paired : Ticket → Option User → Option (Ticket × User)
paired t none = none
paired t (some u) = some (t, u)

abbrev pub with_user : Option Ticket → Session → Option (Ticket × User)
with_user none s = none
with_user (some t) s = paired t (find (user_has_id t.user_id) s.users)

abbrev pub set_ticket : Uuid → TicketStatus → Session → Session
set_ticket i st s = record s { tickets = modify (ticket_has_id i) (with_status st) s.tickets }

abbrev pub is_forbidden : Exn → Bool
is_forbidden Exn.telegram_forbidden = true
is_forbidden _ = false

-- `message.text is None and message.photo is None`
abbrev pub lacks_both : Content → Bool
lacks_both c = elim c.text [ some t ↦ false | none ↦ elim c.photo [ some p ↦ false | none ↦ true ] ]

module _ (o : Outside) (admin : User) where
  abbrev pub tell : Text → Action (Unit {0})
  tell text = call_telegram o (Call.send_message admin.telegram_id text)

  unfoldable pub support_reply_start : Uuid → Action (Unit {0})
  support_reply_start i = do
    call_telegram o Call.answer_callback
    update_form (λ f. record f { state = FormState.waiting_for_reply; ticket_id = some i })

  -- The `try` block: whether the user could be reached.
  unfoldable pub deliver_reply : Ticket → User → Content → Action Bool
  deliver_reply t u c =
      catch_if is_forbidden
        (do
          call_telegram o (delivery u.telegram_id c.photo Text.ticket_reply)
          modify_session (set_ticket t.id answered)
          pure true)
        λ e. do
          modify_session (set_ticket t.id closed)
          modify_session (set_user u.id blocked)
          tell Text.user_blocked
          log_action admin.id "reply_ticket_blocked" "ticket" t.id
          clear_form
          pure false

  unfoldable pub finish_reply : Ticket → Bool → Action (Unit {0})
  finish_reply t false = pure tt
  finish_reply t true = do
    log_action admin.id "reply_ticket" "ticket" t.id
    clear_form
    tell Text.done

  unfoldable pub reply_to : Content → Option (Ticket × User) → Action (Unit {0})
  unfolding add_message deliver_reply finish_reply
  reply_to c none = clear_form >> tell Text.ticket_not_found
  reply_to c (some (t, u)) = do
    add_message o t.id admin.id c
    reached ← deliver_reply t u c
    finish_reply t reached

  unfoldable pub reply_at : Content → Option Uuid → Action (Unit {0})
  unfolding reply_to
  reply_at c none = clear_form >> tell Text.ticket_not_found
  reply_at c (some i) = do
    found ← gets (λ s. with_user (find (ticket_has_id i) s.tickets) s)
    reply_to c found

  unfoldable pub reply_unless : Bool → Content → Action (Unit {0})
  unfolding reply_at
  reply_unless true c = pure tt
  reply_unless false c = do i ← gets (λ s. s.form.ticket_id); reply_at c i

  unfoldable pub support_reply_submit : Content → Action (Unit {0})
  unfolding reply_unless
  support_reply_submit c = reply_unless (lacks_both c) c

  unfoldable pub close_found : Option Ticket → Action (Unit {0})
  close_found none = pure tt
  close_found (some t) = do
    modify_session (set_ticket t.id closed)
    log_action admin.id "close_ticket" "ticket" t.id

  unfoldable pub support_close_ticket : Uuid → Action (Unit {0})
  unfolding close_found
  support_close_ticket i = do
    call_telegram o Call.answer_callback
    found ← gets (λ s. find (ticket_has_id i) s.tickets)
    close_found found
