-- ===== src/Purchase/Outcome.antt =====
-- What `_finalize_purchase` and `pay_with_wallet` leave, by how the payment and the provisioning end.
use marzbot.Base.{ℕ, ◌≡◌, refl, true, false, some, ◌∷◌, ==_iff}
use marzbot.Base.Int.{ℤ, pos, ◌≤ℤ◌, ◌-ℤ◌}
use marzbot.Models.{Str, Wallet, Order, Plan, User, debit, failed, refunded, provisioned}
use marzbot.Session.{
  Session, Exn, Outside, ok, err, final, is_provisioning_error, Call, State, log, cleared, managed,
  answer,
}
use marzbot.Wallet.{get_by_user_id, set_balance, post}
use marzbot.Wallet.Branches.{exceeds}
use marzbot.Provisioning.{ProvisioningResult, provision_subscription, set_order_status}
use marzbot.Provisioning.Contract.{PanelIsForeign, Provisions, provision_subscription-Provisions}
use marzbot.Purchase.{process_wallet_purchase, pay_with_wallet, is_processing}
use marzbot.Purchase.Finalize.{new_order, place_order, finalize_purchase}
use marzbot.Purchase.Messages.{
  announce-OnlyCalls, finalize_purchase_announces, finalize_purchase_refused,
}
use marzbot.Purchase.Stages.{
  paid, ordered, get_by_user_id-paid, finalize_purchase_refund, refund_restores, refunded_rows,
  orders-set_order_status,
}

-- The order of the purchase, with a status of its own.
abbrev pub order_with : Outside → User → Plan → ℤ → Session → Order
order_with o user plan price s = new_order (o.uuid4 s.drawn) user plan "bot" price

module _ (o : Outside) (chat : ℕ) (user : User) (plan : Plan) (price : ℤ) (name : Str) (s : Session)
    (w : Wallet) (found : get_by_user_id user.id s ≡ some w) (positive : pos 1 ≤ℤ price)
    (within : exceeds debit w price ≡ false) (foreign : PanelIsForeign o) where
  contract :
      Provisions user.id plan.id (o.uuid4 s.drawn) name (paid o user plan price w s) (
        provision_subscription o user.id plan.id
          (o.uuid4 s.drawn)
          name
          (paid o user plan price w s))
  contract =
      provision_subscription-Provisions o user.id plan.id (o.uuid4 s.drawn) name
        (paid o user plan price w s) foreign

  -- If panel errors are never provisioning errors and the wallet covers a positive price: a
  -- purchase whose provisioning fails by an error of its own leaves the wallet as it was, the
  -- order refunded, and no new subscription or client.
  pub finalize_purchase_refunds :
      (e : Exn) (s' : Session)
      → provision_subscription o user.id plan.id (o.uuid4 s.drawn) name (paid o user plan price w s)
        ≡ err e s'
      → is_provisioning_error e ≡ true
      → let t = final (finalize_purchase o chat user plan price name s) in
        (get_by_user_id user.id t ≡ some w)
        × (t.orders ≡ record (order_with o user plan price s) { status = refunded } ∷ s.orders)
        × (t.subscriptions ≡ s.subscriptions)
        × (t.xui_clients ≡ s.xui_clients)
  finalize_purchase_refunds e s' stopped own =
      let (money, clean, x) = rw stopped at contract in
      let whole = clean own in
      let (orders, subscriptions, clients) =
        refunded_rows o chat user plan price name s w found positive within s' whole in
      rw
        (finalize_purchase_refund o chat user plan price name s w found positive within s' whole e
          stopped own)
        (
          refund_restores o chat user plan price name s w found positive within s' whole,
          orders,
          subscriptions,
          clients,
        )

  -- If panel errors are never provisioning errors and the wallet covers a positive price: a
  -- purchase that is provisioned takes just the price from the wallet, marks the order as
  -- provisioned and keeps the new subscription and client, whether or not the messages go
  -- through.
  pub finalize_purchase_delivers :
      (r : ProvisioningResult) (s' : Session)
      → provision_subscription o user.id plan.id (o.uuid4 s.drawn) name (paid o user plan price w s)
        ≡ ok r s'
      → let t = final (finalize_purchase o chat user plan price name s) in
        (get_by_user_id user.id t ≡ some (set_balance (w.balance -ℤ price) w))
        × (t.orders ≡ record (order_with o user plan price s) { status = provisioned } ∷ s.orders)
        × (t.subscriptions ≡ r.subscription ∷ s.subscriptions)
        × (t.xui_clients ≡ r.xui_client ∷ s.xui_clients)
  unfolding set_order_status place_order post new_order
  finalize_purchase_delivers r s' done =
      let told = rw done at contract in
      let marked =
        orders-set_order_status o user plan "bot" price provisioned s
          (ordered o user plan "bot" price s) refl in
      rw
        (
          finalize_purchase_announces o chat user plan price name s w found positive within r s'
              done,
          announce-OnlyCalls o chat (set_order_status (o.uuid4 s.drawn) provisioned s'),
        )
        (
          rw (told.0).wallets
              (get_by_user_id-paid o chat user plan price name s w found positive within),
          rw (told.3, marked, (==_iff (o.uuid4 s.drawn) (o.uuid4 s.drawn)).1 refl) refl,
          told.1,
          told.2,
        )

-- A positive price that the user's wallet does not cover when it is debited fails the order,
-- takes nothing and adds no subscription.
pub finalize_purchase_insufficient :
    (o : Outside) (chat : ℕ) (user : User) (plan : Plan) (price : ℤ) (name : Str) (s : Session)
    (w : Wallet)
    → get_by_user_id user.id s ≡ some w
    → pos 1 ≤ℤ price
    → exceeds debit w price ≡ true
    → let t = final (finalize_purchase o chat user plan price name s) in
      (t.wallets ≡ s.wallets)
      × (t.transactions ≡ s.transactions)
      × (t.subscriptions ≡ s.subscriptions)
      × (t.orders ≡ record (order_with o user plan price s) { status = failed } ∷ s.orders)
unfolding set_order_status place_order
finalize_purchase_insufficient o chat user plan price name s w found positive over =
    rw (finalize_purchase_refused o chat user plan price name s w found positive over) (
      refl,
      refl,
      refl,
      orders-set_order_status o user plan "bot" price failed s (ordered o user plan "bot" price s)
          refl,
    )

-- If no purchase of the user is being processed and the answer and the chat action go through: whatever
-- exception the purchase raises, unless a flush has failed, its rows are committed, since the
-- handler ends normally and the middleware rolls nothing back.
pub pay_with_wallet_commits :
    (o : Outside) (telegram_id : ℕ) (s s' : Session) (e : Exn)
    → is_processing o s.fsm.state ≡ false
    → o.telegram s Call.answer_callback ≡ answer tt
    → let clicked = record (log Call.answer_callback s) {
      fsm = record (s.fsm) { state = State.purchase_processing };
    } in
      o.telegram clicked (Call.send_chat_action telegram_id) ≡ answer tt
      → process_wallet_purchase o telegram_id (log (Call.send_chat_action telegram_id) clicked)
        ≡ err e s'
      → s'.poisoned ≡ false
      → managed (pay_with_wallet o telegram_id) s ≡ ok tt (record s' { fsm = cleared })
unfolding managed pay_with_wallet
pay_with_wallet_commits o telegram_id s s' e idle answered chat stopped sound =
    rw (answered, idle, chat, stopped, sound) refl
