-- ===== src/Tests/Support.antt =====
-- Tickets.
use marzbot.Base.{◌+◌, ◌≡◌, refl, none, some, [], ◌∷◌, arith}
use marzbot.Base.Table.{count}
use marzbot.Base.Text.{codes}
use marzbot.Models.{Ticket, closed}
use marzbot.Session.{Session, ok, final, managed}
use marzbot.Support.{Content, open_for, support_submit}
use marzbot.Support.Reply.{support_reply_submit}
use marzbot.Support.Counting.{HasOneOpen}
use marzbot.Support.Single.{Reaches, Reaches-HasOneOpen}
use marzbot.Support.Reopened.{support_reply_submit-reopens}
use marzbot.Tests.World.{shop, user}
use marzbot.Tests.Purchase.{up}

abbrev hello : Content
hello = record { text = some (codes "hello"); caption = none; photo = none }

abbrev written : Session
written = final (managed (support_submit up 100 hello) (shop []))

-- A user writes, and writes again: both messages are in one ticket.
Reaches-HasOneOpen_example : HasOneOpen 1 (final (managed (support_submit up 100 hello) written))
Reaches-HasOneOpen_example =
    Reaches-HasOneOpen up 1 {s = shop []}
      {t = final (managed (support_submit up 100 hello) written)} (ground arith)
      (Reaches.submitted (Reaches.submitted Reaches.start 100 hello) 100 hello)

abbrev shut : Ticket
shut = record { id = 20; user_id = 1; status = closed }

abbrev answering : Session
answering = record (shop []) {
  tickets = shut ∷ [];
  form = record ((shop []).form) { ticket_id = some 20 };
}

support_reply_submit-reopens_example :
    (v : Session) × (support_reply_submit up user hello answering ≡ ok tt v)
    × (count (open_for 1) v.tickets ≡ count (open_for 1) answering.tickets + 1)
support_reply_submit-reopens_example =
    support_reply_submit-reopens up user user hello 20 shut answering refl refl refl refl
      (λ c v. refl) refl
