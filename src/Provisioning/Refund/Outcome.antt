-- ===== src/Provisioning/Refund/Outcome.antt =====
-- How `process_zero_usage_refund` (services/provisioning/manager.py) ends.
use marzbot.Base.{String, ◌≡◌, refl, sym, ap, ◌∙◌, Option, some, arith}
use marzbot.Base.Int.{ℤ, ◌+ℤ◌}
use marzbot.Base.Decimal.{quantize-of_money}
use marzbot.Base.Table.{find, find-modify_self, find-passes}
use mathlib.Core.Path.{subst}
use mathlib.Core.Option.{some-injective}
use marzbot.Models.{
  Uuid, Time, Order, Subscription, SubscriptionStatus, pending_activation, XuiClientRecord, Wallet,
  credit,
}
use marzbot.Session.{Session, Run, Exn, Outside, ok, err, final, ◌>>◌}
use marzbot.Runtime.{ensure_inbound_server_loaded}
use marzbot.Wallet.{
  Request, WalletTransactionResult, get_by_user_id, set_balance, post, process_transaction,
  normalized_direction-credit,
}
use marzbot.Wallet.Branches.{Outcome, process_transaction-Outcome}
use marzbot.Wallet.Ledger.{get_by_user_id-post}
use marzbot.Purchase.Finalize.{wallet_request}
use marzbot.Provisioning.{set_order_status}
use marzbot.Provisioning.Refund.{
  belongs_to, client_of_subscription, order_of, deactivate_client, eligible, refunded_subscription,
  mark_refunded, disable_xui_client, withdraw_client, repay, process_zero_usage_refund,
}

-- What the checks have seen.
abbrev pub IsEligible : Uuid → Uuid → Session → Subscription × Order → Type 0
IsEligible i u s (subscription, order) =
    (find (belongs_to i u) s.subscriptions ≡ some subscription)
    × (subscription.status ≡ pending_activation)
    × (subscription.used_bytes ≡ 0)
    × (order_of subscription.order_id s ≡ some order)

eligible-IsEligible :
    (i u : Uuid) (s t : Session) (subscription : Subscription) (order : Order)
    → eligible i u s ≡ ok (subscription, order) t
    → (t ≡ s) × IsEligible i u s (subscription, order)
unfolding eligible
eligible-IsEligible i u s t subscription order e = ground arith

final-eligible : (i u : Uuid) (s : Session) → final (eligible i u s) ≡ s
unfolding eligible
final-eligible i u s = ground arith

-- The rows that the work on the panel leaves alone.
pub record SameBooks (s s' : Session) : Type 0 where
  pub wallets : s'.wallets ≡ s.wallets
  pub transactions : s'.transactions ≡ s.transactions
  pub subscriptions : s'.subscriptions ≡ s.subscriptions
  pub orders : s'.orders ≡ s.orders

withdraw_client-SameBooks :
    (o : Outside) (subscription : Subscription) (client : Option XuiClientRecord) (s : Session)
    → SameBooks s (final (withdraw_client o subscription client s))
unfolding withdraw_client disable_xui_client deactivate_client ensure_inbound_server_loaded
withdraw_client-SameBooks o subscription client s = ground arith

-- The subscription that the marks are written to is found with them.
find-mark_refunded :
    (i u order_id : Uuid) (now : Time) (s : Session) (subscription : Subscription)
    → find (belongs_to i u) s.subscriptions ≡ some subscription
    → find (belongs_to i u) (mark_refunded i u order_id now s).subscriptions
      ≡ some (refunded_subscription now subscription)
unfolding mark_refunded set_order_status refunded_subscription
find-mark_refunded i u order_id now s subscription found =
    find-modify_self (belongs_to i u) (refunded_subscription now) s.subscriptions found
      (find-passes (belongs_to i u) s.subscriptions found)

-- A credit that went through, in a session that it was made in.
module _ (u : Uuid) (amount : ℤ) (currency : String) (order_id : Uuid) (t : Session) where
  abbrev credit_request : Request
  credit_request = wallet_request "refund" "credit" u amount currency order_id

  credited :
      (r : WalletTransactionResult) (t' : Session)
      → process_transaction credit_request t ≡ ok r t'
      → (w : Wallet) × (get_by_user_id u t ≡ some w)
        × (get_by_user_id u t' ≡ some (set_balance (w.balance +ℤ amount) w))
        × (t'.subscriptions ≡ t.subscriptions)
  unfolding wallet_request post
  credited r t' e =
      let out : Outcome credit_request t (ok r t') =
        subst (Outcome credit_request t) e (process_transaction-Outcome credit_request t) in
      let (w, d, found, word, positive, within, whole, row) = out in
      let upward : d ≡ credit = some-injective _ _ (sym word ∙ normalized_direction-credit) in
      (
        w,
        found,
        rw (whole, upward, quantize-of_money amount)
            (get_by_user_id-post credit_request credit w amount t found),
        rw whole refl,
      )

  refused : (e : Exn) (t' : Session) → process_transaction credit_request t ≡ err e t' → t' ≡ t
  refused e t' stopped =
      subst (Outcome credit_request t) stopped (process_transaction-Outcome credit_request t)

-- What the refund has done, by how it ended.
abbrev pub Refunds : Uuid → Uuid → Session → Run Subscription → Type 0
Refunds i u s (ok r s') =
    (subscription : Subscription) × (order : Order) × (w : Wallet) × IsEligible i u s
      (subscription, order)
    × (get_by_user_id u s ≡ some w)
    × (get_by_user_id u s' ≡ some (set_balance (w.balance +ℤ order.amount) w))
    × (find (belongs_to i u) s'.subscriptions ≡ some r)
    × (r.status ≡ SubscriptionStatus.refunded)
Refunds i u s (err e s') =
    (s'.wallets ≡ s.wallets) × (s'.subscriptions ≡ s.subscriptions) × (s'.orders ≡ s.orders)

repay-Refunds :
    (o : Outside) (i u : Uuid) (s t : Session) (subscription : Subscription) (order : Order)
    → SameBooks s t
    → IsEligible i u s (subscription, order)
    → Refunds i u s (repay o u subscription order t)
unfolding repay mark_refunded set_order_status refunded_subscription
repay-Refunds o i u s t subscription order same seen =
    paid (process_transaction (credit_request u order.amount order.currency order.id t) t) refl
  where
    paid :
        (run : Run WalletTransactionResult)
        → process_transaction (credit_request u order.amount order.currency order.id t) t ≡ run
        → Refunds i u s (repay o u subscription order t)
    paid (err e t') stopped =
        let back = refused u order.amount order.currency order.id t e t' stopped in
        rw (stopped, back) (same.wallets, same.subscriptions, same.orders)
    paid (ok r t') went =
        let (w, found, after, rows) = credited u order.amount order.currency order.id t r t' went in
        let (here, waits, unused, ordered) = seen in
        let own : subscription.id ≡ i =
          ground (arith, find-passes (belongs_to i u) s.subscriptions {a = subscription} here) in
        rw went (
          subscription,
          order,
          w,
          seen,
          rw (← same.wallets) found,
          after,
          subst
              (λ j.
                find (belongs_to i u) (mark_refunded j u order.id (o.utcnow t') t').subscriptions
                ≡ some (refunded_subscription (o.utcnow t') subscription))
              (sym own)
              (find-mark_refunded i u order.id (o.utcnow t') t' subscription
                (ap (find (belongs_to i u)) (rows ∙ same.subscriptions) ∙ here)),
          refl,
        )

-- A refund that succeeds was asked for a subscription of the user that waited for its first use
-- and had none; it adds the amount of the order to the wallet, and the subscription is found
-- refunded. One that raises leaves the wallets, the subscriptions and the orders as they were.
pub process_zero_usage_refund-Refunds :
    (o : Outside) (i u : Uuid) (s : Session) → Refunds i u s (process_zero_usage_refund o i u s)
unfolding process_zero_usage_refund
process_zero_usage_refund-Refunds o i u s = checked (eligible i u s) refl
  where
    withdrawn :
        (subscription : Subscription) (order : Order) (client : Option XuiClientRecord)
        → IsEligible i u s (subscription, order)
        → (run : Run (Unit {0})) → withdraw_client o subscription client s ≡ run
        → Refunds i u s ((withdraw_client o subscription client >> repay o u subscription order) s)
    withdrawn subscription order client seen (err e t) stopped =
        let same : SameBooks s t =
          subst (λ run. SameBooks s (final run)) stopped
            (withdraw_client-SameBooks o subscription client s) in
        rw stopped (same.wallets, same.subscriptions, same.orders)
    withdrawn subscription order client seen (ok x t) went =
        let same : SameBooks s t =
          subst (λ run. SameBooks s (final run)) went
            (withdraw_client-SameBooks o subscription client s) in
        rw went (repay-Refunds o i u s t subscription order same seen)

    checked :
        (run : Run (Subscription × Order))
        → eligible i u s ≡ run
        → Refunds i u s (process_zero_usage_refund o i u s)
    checked (err e t) stopped =
        let back : t ≡ s = subst (λ run. final run ≡ s) stopped (final-eligible i u s) in
        rw (stopped, back) (refl, refl, refl)
    checked (ok (subscription, order) t) went =
        let (back, seen) = eligible-IsEligible i u s t subscription order went in
        rw (went, back)
          (withdrawn subscription order
            (find (client_of_subscription subscription.id) s.xui_clients) seen
            (withdraw_client o subscription
              (find (client_of_subscription subscription.id) s.xui_clients) s)
            refl)

-- A subscription that was refunded is not refunded again: the second call raises and changes
-- nothing.
pub process_zero_usage_refund_once :
    (o : Outside) (i u : Uuid) (s s' : Session) (r : Subscription)
    → process_zero_usage_refund o i u s ≡ ok r s'
    → process_zero_usage_refund o i u s' ≡ err Exn.zero_usage_refund s'
unfolding process_zero_usage_refund eligible
process_zero_usage_refund_once o i u s s' r done =
    let out : Refunds i u s (ok r s') =
      subst (Refunds i u s) done (process_zero_usage_refund-Refunds o i u s) in
    let (sub, order, w, seen, found, after, here, gone) = out in rw (here, gone) refl
