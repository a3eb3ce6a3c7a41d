-- ===== src/Payment/Poll/Silence.antt =====
-- The books under the polling job (apps/worker/jobs/payments.py).
use marzbot.Base.{◌≡◌, refl, Bool, Option, List, [], ◌∷◌, map, arith}
use marzbot.Base.Int.{ℤ}
use marzbot.Base.Table.{modify, select}
use marzbot.Models.{Payment}
use marzbot.Session.{Session, Outside, final}
use marzbot.Payment.{set_payment}
use marzbot.Payment.Poll.{ask, sync_one, sync_each, sync_pending_payments, updated, is_pending}

abbrev pub paid_of : Payment → Option ℤ
paid_of p = p.actually_paid

-- The wallets, the transactions and what each payment has been paid with are as before.
pub record NotCredited (s s' : Session) : Type 0 where
  pub wallets : s'.wallets ≡ s.wallets
  pub transactions : s'.transactions ≡ s.transactions
  pub paid : map paid_of s'.payments ≡ map paid_of s.payments

map-modify :
    (test : Payment → Bool) (f : Payment → Payment) (ps : List Payment)
    → ((p : Payment) → paid_of (f p) ≡ paid_of p)
    → map paid_of (modify test f ps) ≡ map paid_of ps
map-modify test f [] h = refl
map-modify test f (p ∷ ps) h = ground (arith, h p, map-modify test f ps h)

sync_one-NotCredited :
    (o : Outside) (p : Payment) (s : Session) → NotCredited s (final (sync_one o p s))
unfolding sync_one ask set_payment updated
sync_one-NotCredited o p s = grind (arith, map-modify)

sync_each-NotCredited :
    (o : Outside) (ps : List Payment) (s : Session) → NotCredited s (final (sync_each o ps s))
unfolding sync_each
sync_each-NotCredited o [] s = record { wallets = refl; transactions = refl; paid = refl }
sync_each-NotCredited o (p ∷ ps) s =
    ground (arith, sync_one-NotCredited o p s, sync_each-NotCredited o ps (final (sync_one o p s)))

-- Whatever the provider answers, a run of the polling job credits no wallet, writes no transaction
-- and marks no payment as paid.
pub sync_pending_payments-NotCredited :
    (o : Outside) (s : Session) → NotCredited s (final (sync_pending_payments o s))
unfolding sync_pending_payments
sync_pending_payments-NotCredited o s = sync_each-NotCredited o (select is_pending s.payments) s
