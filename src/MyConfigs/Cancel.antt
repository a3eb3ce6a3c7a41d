-- ===== src/MyConfigs/Cancel.antt =====
-- Cancelling an unused configuration (apps/bot/handlers/user/my_configs.py).
use marzbot.Base.{
  ℕ, ◌≡◌, refl, ap, sym, ◌∙◌, Bool, true, false, ◌&&◌, Option, some, arith, ◌==◌, none,
}
use marzbot.Base.Int.{pos, ◌+ℤ◌, leb_ℤ}
use marzbot.Base.Decimal.{quantize-of_money}
use marzbot.Base.Table.{modify, find, find-modify_self, find-passes}
use mathlib.Core.Path.{subst}
use marzbot.Models.{
  Uuid, Order, OrderStatus, User, Subscription, SubscriptionStatus, Wallet, credit,
}
use marzbot.Session.{
  Session, Run, Outside, Reply, answer, Call, ok, err, log, proceed, replied, gets, ◌>>=◌,
}
use marzbot.Runtime.{ensure_inbound_server_loaded}
use marzbot.Wallet.{
  get_by_user_id, set_balance, post, process_transaction, normalized_direction-credit,
}
use marzbot.Wallet.Ledger.{get_by_user_id-post}
use marzbot.Wallet.Amounts.{Posted, process_transaction-Posted}
use marzbot.Provisioning.{set_order_status, order_has_id}
use marzbot.Provisioning.Refund.{belongs_to, is_pending_activation, deactivate_client}
use marzbot.MyConfigs.{Place, owned, place_of, change_subscription}
use marzbot.MyConfigs.Rows.{owned_rows, owned_again, owned_same}
use marzbot.MyConfigs.Ending.{
  ended, order_to_refund, cancel_request, delete_from_panel, remove_usable, remove_client, pay_back,
  refund_if_removed, cancel_if, cancel_owned, cancel_and_refund_config,
}

-- The removal writes to the client alone, and never raises.
pub record OnlyClients (s s' : Session) : Type 0 where
  pub wallets : s'.wallets ≡ s.wallets
  pub transactions : s'.transactions ≡ s.transactions
  pub subscriptions : s'.subscriptions ≡ s.subscriptions
  pub orders : s'.orders ≡ s.orders
  pub plans : s'.plans ≡ s.plans
  pub users : s'.users ≡ s.users

abbrev Removes : Session → Run Bool → Type 0
Removes s (ok b s') = OnlyClients s s'
Removes s (err e s') = ⊥

remove_client-Removes :
    (o : Outside) (i : Uuid) (place : Option Place) (s : Session)
    → Removes s (remove_client o i place s)
unfolding remove_client remove_usable delete_from_panel deactivate_client
    ensure_inbound_server_loaded
remove_client-Removes o i place s = ground arith

removed :
    (o : Outside) (i : Uuid) (place : Option Place) (s t : Session) (b : Bool)
    → remove_client o i place s ≡ ok b t
    → OnlyClients s t
removed o i place s t b e = subst (Removes s) e (remove_client-Removes o i place s)

module _ (o : Outside) (telegram_id : ℕ) (i : Uuid) (before s t : Session) (u : User)
    (r : Subscription) (clicked : s ≡ log Call.answer_callback before)
    (answers : (x : Session) → o.telegram x Call.answer_callback ≡ answer tt)
    (mine : owned telegram_id i s ≡ some (u, r))
    (unused : (is_pending_activation r.status && r.used_bytes == 0) ≡ true) where
  answered :
      (x : Session)
      → cancel_and_refund_config o telegram_id i x
        ≡ cancel_owned o
            (owned telegram_id i (log Call.answer_callback x))
            (log Call.answer_callback x)
  unfolding cancel_and_refund_config
  answered x =
      ap
        (λ (reply : Reply (Unit {0})).
          proceed (replied reply (log Call.answer_callback x))
            (λ y. gets (owned telegram_id i) >>= cancel_owned o))
        (answers x)

  first : cancel_and_refund_config o telegram_id i before ≡ cancel_owned o (owned telegram_id i s) s
  first =
      answered before ∙ ap (λ (x : Session). cancel_owned o (owned telegram_id i x) x) (sym clicked)

  -- If Telegram answers the click and the client cannot be removed from its panel, an unused subscription is not refunded: the
  -- handler ends normally, and wallets, transactions, subscriptions and orders are as before.
  pub cancel_and_refund_config_fails :
      remove_client o r.id (place_of r.id s) s ≡ ok false t
      → (cancel_and_refund_config o telegram_id i before ≡ ok tt t) × OnlyClients s t
  unfolding cancel_owned cancel_if refund_if_removed
  cancel_and_refund_config_fails stopped =
      (first ∙ rw (mine, unused, stopped) refl, removed o r.id (place_of r.id s) s t false stopped)

  module _ (gone : remove_client o r.id (place_of r.id s) s ≡ ok true t) (order : Order)
      (chosen : order_to_refund u.id r.plan_id s ≡ some order)
      (positive : leb_ℤ order.amount (pos 0) ≡ false) (w : Wallet)
      (found : get_by_user_id u.id s ≡ some w) where
    same : OnlyClients s t
    same = removed o r.id (place_of r.id s) s t true gone

    abbrev paid_back : Session
    paid_back = post (cancel_request u.id r.id order.amount) credit w order.amount t

    abbrev cancelled : Session
    cancelled =
        change_subscription r (ended SubscriptionStatus.refunded)
          (set_order_status order.id OrderStatus.refunded paid_back)

    found_there : get_by_user_id u.id t ≡ some w
    found_there = rw same.wallets found

    pays :
        Posted
          (cancel_request u.id r.id order.amount)
          credit
          w
          order.amount
          t
          (process_transaction (cancel_request u.id r.id order.amount) t)
    unfolding cancel_request
    pays =
        process_transaction-Posted (cancel_request u.id r.id order.amount) credit order.amount
          (quantize-of_money order.amount) normalized_direction-credit t w found_there positive refl

    chosen_there : order_to_refund u.id r.plan_id t ≡ some order
    unfolding order_to_refund
    chosen_there = rw same.orders chosen

    cancels : cancel_owned o (owned telegram_id i s) s ≡ ok tt cancelled
    unfolding cancel_owned cancel_if refund_if_removed pay_back
    cancels = rw (mine, unused, gone, chosen_there, positive, pays) refl

    rows_there : find (belongs_to r.id r.user_id) paid_back.subscriptions ≡ some r
    unfolding post
    rows_there =
        let (a, b, here, d) = owned_rows telegram_id i s u r mine in rw same.subscriptions here

    ended_there :
        find (belongs_to r.id r.user_id) cancelled.subscriptions
        ≡ some (ended SubscriptionStatus.refunded r)
    unfolding change_subscription set_order_status ended
    ended_there =
        find-modify_self (belongs_to r.id r.user_id) (ended SubscriptionStatus.refunded)
          paid_back.subscriptions rows_there
          (find-passes (belongs_to r.id r.user_id) paid_back.subscriptions rows_there)

    pays_there : get_by_user_id u.id cancelled ≡ some (set_balance (w.balance +ℤ order.amount) w)
    unfolding change_subscription set_order_status cancel_request
    pays_there =
        get_by_user_id-post (cancel_request u.id r.id order.amount) credit w order.amount t
          found_there

    users_there : cancelled.users ≡ s.users
    unfolding change_subscription set_order_status post
    users_there = same.users

    orders_there :
        cancelled.orders
        ≡ modify (order_has_id order.id) (λ x. record x { status = OrderStatus.refunded }) s.orders
    unfolding change_subscription set_order_status post
    orders_there = rw same.orders refl

    owned_there : owned telegram_id i cancelled ≡ some (u, ended SubscriptionStatus.refunded r)
    owned_there =
        owned_again telegram_id i s cancelled u r (ended SubscriptionStatus.refunded r) mine
          users_there ended_there

    again :
        cancel_and_refund_config o telegram_id i cancelled
        ≡ ok tt (log Call.answer_callback cancelled)
    unfolding cancel_owned cancel_if ended
    again =
        answered cancelled
        ∙ ap
            (λ (m : Option (User × Subscription)).
              cancel_owned o m (log Call.answer_callback cancelled))
            (owned_same telegram_id i cancelled (log Call.answer_callback cancelled) refl refl
              ∙ owned_there)

    -- An unused subscription whose client was removed is refunded by the amount of the user's latest
    -- provisioned order of the same plan, once: the wallet has the amount more, the subscription is
    -- refunded with no link, the order is refunded, and a second cancellation changes no row.
    -- Telegram answers the clicks; the first answer leaves the session `s`, and the removal the
    -- session `t`.
    pub cancel_and_refund_config_refunds :
        (t' : Session) × (t'' : Session) × (cancel_and_refund_config o telegram_id i before
          ≡ ok tt t')
        × (get_by_user_id u.id t' ≡ some (record w { balance = w.balance +ℤ order.amount }))
        × (find (belongs_to r.id r.user_id) t'.subscriptions
            ≡ some (record r { status = SubscriptionStatus.refunded; sub_link = none }))
        × (t'.orders
            ≡ modify
                (order_has_id order.id)
                (λ x. record x { status = OrderStatus.refunded })
                s.orders)
        × (cancel_and_refund_config o telegram_id i t' ≡ ok tt t'')
        × (t'' ≡ record t' { calls = t''.calls })
    unfolding ended
    cancel_and_refund_config_refunds = (
      cancelled,
      log Call.answer_callback cancelled,
      first ∙ cancels,
      pays_there,
      ended_there,
      orders_there,
      again,
      refl,
    )
