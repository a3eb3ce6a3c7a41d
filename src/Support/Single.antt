-- ===== src/Support/Single.antt =====
-- The one open ticket of a user, through the handlers on tickets.
use marzbot.Base.{
  ℕ, ◌≡◌, refl, ap, ◌∙◌, Bool, true, Option, none, some, List, [], ◌∷◌, arith, Bool-cases,
  Option-cases, inl, inr,
}
use marzbot.Base.Table.{find}
use marzbot.Models.{Uuid, User, Ticket}
use marzbot.Session.{Session, Action, Outside, final, managed}
use marzbot.Support.{
  Content, is_open, ticket_has_id, get_open_ticket_for_user, create_ticket, add_message, ticket_for,
  alert_one, alert_admins, submit_of, submit_by, submit_unless, support_submit,
}
use marzbot.Accounts.{user_has_id}
use marzbot.Support.Reply.{
  paired, with_user, lacks_both, deliver_reply, finish_reply, reply_to, reply_at, reply_unless,
  support_reply_submit, close_found, support_close_ticket,
}
use marzbot.Support.Counting.{
  HasOneOpen, one_more, same_id, proceed-HasOneOpen, settle-HasOneOpen, asked_again_one, shut,
  reanswered,
}

module _ (o : Outside) where
  alert_one-tickets :
      (u : User) (c : Content) (s : Session) → (final (alert_one o u c s)).tickets ≡ s.tickets
  unfolding alert_one
  alert_one-tickets u c s = ground arith

  alert_admins-tickets :
      (us : List User) (c : Content) (s : Session)
      → (final (alert_admins o us c s)).tickets ≡ s.tickets
  unfolding alert_admins
  alert_admins-tickets [] c s = refl
  alert_admins-tickets (u ∷ us) c s = grind (arith, alert_one-tickets, alert_admins-tickets us c)

  ticket_for-HasOneOpen :
      (x user_id : Uuid) (s : Session)
      → HasOneOpen x s
      → HasOneOpen x (final (ticket_for o user_id (get_open_ticket_for_user user_id s) s))
  unfolding ticket_for create_ticket
  ticket_for-HasOneOpen x user_id s h = elim (Option-cases (get_open_ticket_for_user user_id s)) [
    | inl e ↦ rw e (one_more x user_id s.tickets h e)
    | inr (t, e) ↦ rw e (asked_again_one x user_id s.tickets h)
  ]

  submit_of-HasOneOpen :
      (x : Uuid) (u : User) (c : Content) (s : Session)
      → HasOneOpen x s
      → HasOneOpen x (final (submit_of o u c s))
  unfolding submit_of add_message
  submit_of-HasOneOpen x u c s h =
      grind (arith, ticket_for-HasOneOpen x u.id s h, alert_admins-tickets)

  support_submit-HasOneOpen :
      (x : Uuid) (telegram_id : ℕ) (c : Content) (s : Session)
      → HasOneOpen x s
      → HasOneOpen x (final (support_submit o telegram_id c s))
  unfolding support_submit submit_unless submit_by
  support_submit-HasOneOpen x telegram_id c s h = grind (arith, submit_of-HasOneOpen)

  close_found-HasOneOpen :
      (x : Uuid) (admin : User) (found : Option Ticket) (s : Session)
      → HasOneOpen x s
      → HasOneOpen x (final (close_found o admin found s))
  unfolding close_found
  close_found-HasOneOpen x admin none s h = h
  close_found-HasOneOpen x admin (some t) s h = shut x t.id s.tickets h

  support_close_ticket-HasOneOpen :
      (x : Uuid) (admin : User) (i : Uuid) (s : Session)
      → HasOneOpen x s
      → HasOneOpen x (final (support_close_ticket o admin i s))
  unfolding support_close_ticket
  support_close_ticket-HasOneOpen x admin i s h = grind (arith, close_found-HasOneOpen)

  deliver_reply-HasOneOpen :
      (x : Uuid) (admin : User) (t : Ticket) (u : User) (c : Content) (s : Session)
      → find (ticket_has_id t.id) s.tickets ≡ some t
      → is_open t.status ≡ true
      → HasOneOpen x s
      → HasOneOpen x (final (deliver_reply o admin t u c s))
  unfolding deliver_reply
  deliver_reply-HasOneOpen x admin t u c s found is_one h =
      ground (arith, shut x t.id s.tickets h, reanswered x t.id t s.tickets found is_one h)

  finish_reply-tickets :
      (admin : User) (t : Ticket) (reached : Bool) (s : Session)
      → (final (finish_reply o admin t reached s)).tickets ≡ s.tickets
  unfolding finish_reply
  finish_reply-tickets admin t reached s = ground arith

  reply_to-HasOneOpen :
      (x : Uuid) (admin : User) (c : Content) (t : Ticket) (u : User) (s : Session)
      → find (ticket_has_id t.id) s.tickets ≡ some t
      → is_open t.status ≡ true
      → HasOneOpen x s
      → HasOneOpen x (final (reply_to o admin c (some (t, u)) s))
  unfolding reply_to add_message
  reply_to-HasOneOpen x admin c t u s found is_one h =
      let s' = final (add_message o t.id admin.id c s) in
      proceed-HasOneOpen x (deliver_reply o admin t u c s') (finish_reply o admin t)
        (deliver_reply-HasOneOpen x admin t u c s' found is_one h)
        (λ reached v k. rw (finish_reply-tickets admin t reached v) k)

  -- The ticket that the reply is for, if there is one, is open.
  abbrev pub IsForOpen : Session → Type 0
  IsForOpen s =
      (i : Uuid) (t : Ticket)
      → s.form.ticket_id ≡ some i
      → find (ticket_has_id i) s.tickets ≡ some t
      → is_open t.status ≡ true

  reply_paired-HasOneOpen :
      (x : Uuid) (admin : User) (c : Content) (t : Ticket) (owner : Option User) (s : Session)
      → find (ticket_has_id t.id) s.tickets ≡ some t
      → is_open t.status ≡ true
      → HasOneOpen x s
      → HasOneOpen x (final (reply_to o admin c (paired t owner) s))
  unfolding reply_to
  reply_paired-HasOneOpen x admin c t none s e is_one h = ground arith
  reply_paired-HasOneOpen x admin c t (some u) s e is_one h =
      reply_to-HasOneOpen x admin c t u s e is_one h

  reply_found-HasOneOpen :
      (x : Uuid) (admin : User) (c : Content) (i : Uuid) (found : Option Ticket) (s : Session)
      → find (ticket_has_id i) s.tickets ≡ found
      → ((t : Ticket) → found ≡ some t → is_open t.status ≡ true)
      → HasOneOpen x s
      → HasOneOpen x (final (reply_to o admin c (with_user found s) s))
  unfolding reply_to
  reply_found-HasOneOpen x admin c i none s e is_one h = ground arith
  reply_found-HasOneOpen x admin c i (some t) s e is_one h =
      reply_paired-HasOneOpen x admin c t (find (user_has_id t.user_id) s.users) s
        (ap (λ (j : Uuid). find (ticket_has_id j) s.tickets) (same_id t i s e) ∙ e) (is_one t refl)
        h

  reply_at-HasOneOpen :
      (x : Uuid) (admin : User) (c : Content) (at : Option Uuid) (s : Session)
      → ((i : Uuid) (t : Ticket)
          → at ≡ some i
          → find (ticket_has_id i) s.tickets ≡ some t
          → is_open t.status ≡ true)
      → HasOneOpen x s
      → HasOneOpen x (final (reply_at o admin c at s))
  unfolding reply_at
  reply_at-HasOneOpen x admin c none s is_one h = ground arith
  reply_at-HasOneOpen x admin c (some i) s is_one h =
      reply_found-HasOneOpen x admin c i (find (ticket_has_id i) s.tickets) s refl
        (λ t f. is_one i t refl f) h

  support_reply_submit-HasOneOpen :
      (x : Uuid) (admin : User) (c : Content) (s : Session)
      → IsForOpen s
      → HasOneOpen x s
      → HasOneOpen x (final (support_reply_submit o admin c s))
  unfolding support_reply_submit reply_unless
  support_reply_submit-HasOneOpen x admin c s is_one h = elim (Bool-cases (lacks_both c)) [
    | inl e ↦ rw e h
    | inr e ↦ rw e (reply_at-HasOneOpen x admin c s.form.ticket_id s is_one h)
  ]

  managed-HasOneOpen :
      {A : Type 0} (x : Uuid) (m : Action A) (s : Session)
      → HasOneOpen x s
      → HasOneOpen x (final (m s))
      → HasOneOpen x (final (managed m s))
  unfolding managed
  managed-HasOneOpen x m s h k = settle-HasOneOpen x s (m s) h k

  -- The sessions that handlers on tickets, each in a transaction of its own, lead to, if every reply
  -- is to an open ticket. In between, anything may change but the tickets.
  pub data Reaches (s : Session) : Session → Type 0 where
    start : Reaches s s
    submitted :
        {t : Session}
        → Reaches s t
        → (telegram_id : ℕ) (c : Content)
        → Reaches s (final (managed (support_submit o telegram_id c) t))
    shut_by :
        {t : Session}
        → Reaches s t
        → (admin : User) (i : Uuid) → Reaches s (final (managed (support_close_ticket o admin i) t))
    replied_by :
        {t : Session}
        → Reaches s t
        → (admin : User) (c : Content) → IsForOpen t
        → Reaches s (final (managed (support_reply_submit o admin c) t))
    meanwhile : {t : Session} → Reaches s t → (t' : Session) → t'.tickets ≡ t.tickets → Reaches s t'

  -- If a user has one open ticket at most, it stays so, whatever users write, tickets are closed,
  -- and replies are sent to open tickets, whether or not the messages go through.
  pub Reaches-HasOneOpen :
      (x : Uuid) {s t : Session} → HasOneOpen x s → Reaches s t → HasOneOpen x t
  Reaches-HasOneOpen x h start = h
  Reaches-HasOneOpen x h (submitted {t = t} r telegram_id c) =
      let k = Reaches-HasOneOpen x h r in
      managed-HasOneOpen x (support_submit o telegram_id c) t k
        (support_submit-HasOneOpen x telegram_id c t k)
  Reaches-HasOneOpen x h (shut_by {t = t} r admin i) =
      let k = Reaches-HasOneOpen x h r in
      managed-HasOneOpen x (support_close_ticket o admin i) t k
        (support_close_ticket-HasOneOpen x admin i t k)
  Reaches-HasOneOpen x h (replied_by {t = t} r admin c is_one) =
      let k = Reaches-HasOneOpen x h r in
      managed-HasOneOpen x (support_reply_submit o admin c) t k
        (support_reply_submit-HasOneOpen x admin c t is_one k)
  Reaches-HasOneOpen x h (meanwhile r t' e) = rw e (Reaches-HasOneOpen x h r)
