-- ===== src/Support/Reopened.antt =====
-- What a reply does to a ticket that was closed (apps/bot/handlers/admin/support.py).
use marzbot.Base.{◌+◌, ◌≡◌, refl, ap, ◌∙◌, Bool, false, Option, some, arith, ==_iff}
use marzbot.Base.Table.{find, modify, count, count-modify_suc, find-passes}
use marzbot.Models.{Uuid, User, Ticket, answered, closed}
use marzbot.Session.{Session, Outside, Call, Text, ok, answer, final}
use marzbot.Accounts.{user_has_id}
use marzbot.Support.{Content, open_for, with_status, ticket_has_id, delivery, add_message}
use marzbot.Support.Reply.{
  paired, with_user, lacks_both, deliver_reply, finish_reply, reply_to, reply_at, reply_unless,
  support_reply_submit,
}

module _ (o : Outside) (admin u : User) (c : Content) (i : Uuid) (t : Ticket) (s : Session)
    (chosen : s.form.ticket_id ≡ some i) (found : find (ticket_has_id i) s.tickets ≡ some t)
    (owner : find (user_has_id t.user_id) s.users ≡ some u) (says : lacks_both c ≡ false)
    (answers : (call : Call) (v : Session) → o.telegram v call ≡ answer tt) where
  replies : support_reply_submit o admin c s ≡ reply_to o admin c (some (t, u)) s
  unfolding support_reply_submit reply_unless reply_at
  replies =
      ap (λ (b : Bool). reply_unless o admin b c s) says
      ∙ ap (λ (at : Option Uuid). reply_at o admin c at s) chosen
      ∙ ap (λ (f : Option Ticket). reply_to o admin c (with_user f s) s) found
      ∙ ap (λ (f : Option User). reply_to o admin c (paired t f) s) owner

  answered_tickets :
      (v : Session) × (reply_to o admin c (some (t, u)) s ≡ ok tt v)
      × (v.tickets ≡ modify (ticket_has_id t.id) (with_status answered) s.tickets)
  unfolding reply_to add_message deliver_reply finish_reply
  answered_tickets =
      let delivered = answers (delivery u.telegram_id c.photo Text.ticket_reply) in
      let told = answers (Call.send_message admin.telegram_id Text.done) in
      (
        final (reply_to o admin c (some (t, u)) s),
        rw delivered (rw told refl),
        rw delivered (rw told refl),
      )

  -- A reply to a ticket that is closed, if Telegram answers, opens it again: the user has one more
  -- open ticket than before, also if there was one.
  pub support_reply_submit-reopens :
      t.status ≡ closed
      → (v : Session) × (support_reply_submit o admin c s ≡ ok tt v)
        × (count (open_for t.user_id) v.tickets ≡ count (open_for t.user_id) s.tickets + 1)
  support_reply_submit-reopens shut =
      let (v, e, k) = answered_tickets in
      let same : find (ticket_has_id t.id) s.tickets ≡ some t =
        ap (λ (j : Uuid). find (ticket_has_id j) s.tickets)
          ((==_iff t.id i).0 (find-passes (ticket_has_id i) s.tickets found))
        ∙ found in
      (
        v,
        replies ∙ e,
        ap (count (open_for t.user_id)) k
            ∙ count-modify_suc (open_for t.user_id) (ticket_has_id t.id) (with_status answered)
                s.tickets same (ground arith) (rw ((==_iff t.user_id t.user_id).1 refl) refl),
      )
