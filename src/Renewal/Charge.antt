-- ===== src/Renewal/Charge.antt =====
-- The money and the row of a renewal (apps/bot/handlers/user/renewal.py).
use marzbot.Base.{
  ℕ, ◌*◌, ◌/◌, ◌^◌, ◌+◌, ◌≡◌, refl, ap, ◌∙◌, true, false, Option, none, some, ◌∷◌, arith,
}
use marzbot.Base.Int.{pos, ◌-ℤ◌, leb_ℤ}
use marzbot.Base.Decimal.{quantize}
use marzbot.Base.Table.{find}
use marzbot.Models.{Uuid, Time, Order, OrderStatus, User, Wallet, Subscription, debit}
use marzbot.Session.{
  Session, Run, Outside, answer, Call, Text, ok, err, log, call_telegram, gets, proceed, ◌>>=◌,
}
use marzbot.Runtime.{ensure_inbound_server_loaded}
use marzbot.Wallet.{
  get_by_user_id, set_balance, post, process_transaction, normalized_direction-debit,
}
use marzbot.Wallet.Branches.{exceeds}
use marzbot.Wallet.Ledger.{get_by_user_id-post}
use marzbot.Wallet.Amounts.{Posted, process_transaction-Posted}
use marzbot.Provisioning.Refund.{belongs_to}
use marzbot.Notifications.Silent.{notify_admins_ok}
use marzbot.Purchase.{get_by_telegram_id}
use marzbot.Sync.{is_live}
use marzbot.MyConfigs.{Place, change_subscription, place_of}
use marzbot.MyConfigs.Rows.{belongs_own, find-change_subscription}
use marzbot.Renewal.{
  RenewType, volume, time, Amount, RenewConfirm, int_of, later_end, is_short, extended,
  renewal_request, renewal_order, linked_to, update_panel, sync_panel, pay_renewal, renew,
  renew_if_covered, renew_planned, renew_live, renew_found, renew_walleted, renew_user,
  renew_confirm_payment,
}

-- The panel's part ends normally, and changes no row.
abbrev Quiet : Session → Run (Unit {0}) → Type 0
Quiet s (ok x t) = t ≡ record s { calls = t.calls }
Quiet s (err e t) = ⊥

sync_panel-Quiet :
    (o : Outside) (r : Subscription) (place : Option Place) (s : Session)
    → Quiet s (sync_panel o r place s)
unfolding sync_panel update_panel ensure_inbound_server_loaded
sync_panel-Quiet o r place s = ground arith

Quiet-ok :
    (s : Session) (run : Run (Unit {0}))
    → Quiet s run
    → (t : Session) × (run ≡ ok tt t) × (t ≡ record s { calls = t.calls })
Quiet-ok s (ok x t) h = (t, refl, h)
Quiet-ok s (err e t) h = absurd h

extended-belongs :
    (t : RenewType) (a : Amount) (r : Subscription) (i j : Uuid)
    → belongs_to i j (extended t a r) ≡ belongs_to i j r
unfolding extended
extended-belongs volume a r i j = refl
extended-belongs time a r i j = refl

module _ (o : Outside) (telegram_id : ℕ) (q : RenewConfirm) (before s : Session)
    (clicked : call_telegram o Call.answer_callback before ≡ ok tt s) (u : User) (w : Wallet)
    (r : Subscription) (plan_id : Uuid) (known : get_by_telegram_id telegram_id s ≡ some u)
    (funded : get_by_user_id u.id s ≡ some w)
    (here : find (belongs_to q.sub_id u.id) s.subscriptions ≡ some r)
    (live : is_live r.status ≡ true) (planned : r.plan_id ≡ some plan_id)
    (covered : is_short w.balance q.price ≡ false)
    (positive : leb_ℤ (quantize 8 q.price) (pos 0) ≡ false)
    (within : exceeds debit w (quantize 8 q.price) ≡ false)
    (shown : o.telegram s (Call.edit_text Text.processing) ≡ answer tt) where
  abbrev order_id : Uuid
  order_id = o.uuid4 s.drawn

  abbrev linked : Session
  linked =
      change_subscription r (linked_to order_id) (record (log (Call.edit_text Text.processing) s) {
        drawn = s.drawn + 1;
        orders = renewal_order order_id u.id plan_id q.price ∷ s.orders;
      })

  abbrev charged : Session
  charged = post (renewal_request u.id q.price order_id) debit w (quantize 8 q.price) linked

  abbrev pub renewed : Session
  renewed = change_subscription r (extended q.type q.amount) charged

  abbrev pub renewed_row : Subscription
  renewed_row = extended q.type q.amount (linked_to order_id r)

  abbrev pub new_order : Order
  new_order = record {
    id = order_id;
    user_id = u.id;
    plan_id = plan_id;
    status = OrderStatus.completed;
    source = "bot";
    amount = quantize 8 q.price;
    currency = "USD";
  }

  pays :
      Posted
        (renewal_request u.id q.price order_id)
        debit
        w
        (quantize 8 q.price)
        linked
        (process_transaction (renewal_request u.id q.price order_id) linked)
  unfolding renewal_request change_subscription
  pays =
      process_transaction-Posted (renewal_request u.id q.price order_id) debit (quantize 8 q.price)
        refl normalized_direction-debit linked w funded positive within

  pay_renewal_pays :
      pay_renewal o q u r plan_id (log (Call.edit_text Text.processing) s) ≡ ok renewed_row renewed
  unfolding pay_renewal
  pay_renewal_pays = rw pays refl

  answered :
      renew_confirm_payment o telegram_id q before
      ≡ renew_user o q (get_by_telegram_id telegram_id s) s
  unfolding renew_confirm_payment
  answered =
      ap
        (λ (run : Run (Unit {0})).
          proceed run (λ x. gets (get_by_telegram_id telegram_id) >>= renew_user o q))
        clicked

  entered : renew_user o q (get_by_telegram_id telegram_id s) s ≡ renew o q u r plan_id s
  unfolding renew_user renew_walleted renew_found renew_live renew_planned renew_if_covered
  entered = rw (known, funded, here, live, planned, covered) refl

  reaches : renew_confirm_payment o telegram_id q before ≡ renew o q u r plan_id s
  reaches = answered ∙ entered

  row_there : find (belongs_to r.id r.user_id) renewed.subscriptions ≡ some renewed_row
  unfolding post linked_to
  row_there =
      let (a, b, own) = belongs_own q.sub_id u.id s.subscriptions r here in
      let asked = record (log (Call.edit_text Text.processing) s) {
        drawn = s.drawn + 1;
        orders = renewal_order order_id u.id plan_id q.price ∷ s.orders;
      } in
      find-change_subscription r (linked_to order_id r) (extended q.type q.amount) charged
        (find-change_subscription r r (linked_to order_id) asked own refl)
        (extended-belongs q.type q.amount (linked_to order_id r) r.id r.user_id)

  orders_there : renewed.orders ≡ new_order ∷ s.orders
  unfolding change_subscription post renewal_order
  orders_there = refl

  sound_there : renewed.poisoned ≡ s.poisoned
  unfolding change_subscription post
  sound_there = refl

  wallet_there :
      get_by_user_id u.id renewed ≡ some (set_balance (w.balance -ℤ quantize 8 q.price) w)
  unfolding change_subscription renewal_request
  wallet_there =
      get_by_user_id-post (renewal_request u.id q.price order_id) debit w (quantize 8 q.price)
        linked funded

  -- What is left once the panel was told: the renewal, with more calls.
  synced :
      (t : Session) × (sync_panel o renewed_row (place_of r.id renewed) renewed ≡ ok tt t)
      × (t ≡ record renewed { calls = t.calls })
  synced =
      Quiet-ok renewed (sync_panel o renewed_row (place_of r.id renewed) renewed)
        (sync_panel-Quiet o renewed_row (place_of r.id renewed) renewed)

  -- The end of the time, counted from the end, or else from the activation, that is there.
  abbrev pub end_after : Option Time → Option Time → Option Time
  end_after (some end) activated_at =
      some (end + q.amount.digits * 1 / 10 ^ q.amount.places * 86400)
  end_after none (some start) = some (start + q.amount.digits * 1 / 10 ^ q.amount.places * 86400)
  end_after none none = none

  -- The row after a renewal by volume (gigabytes), or by time (days).
  abbrev pub extended_row : RenewType → Subscription
  extended_row volume = record r {
    order_id = some order_id;
    volume_bytes = r.volume_bytes + q.amount.digits * (1024 * 1024 * 1024) / 10 ^ q.amount.places;
  }
  extended_row time = record r {
    order_id = some order_id;
    ends_at = end_after r.ends_at r.activated_at;
  }

  same_end :
      (end start : Option Time) → later_end (int_of q.amount 1) end start ≡ end_after end start
  same_end (some end) start = refl
  same_end none (some start) = refl
  same_end none none = refl

  same_row : (b : RenewType) → extended b q.amount (linked_to order_id r) ≡ extended_row b
  unfolding extended linked_to
  same_row volume = refl
  same_row time =
      ap (λ (end : Option Time). record r { order_id = some order_id; ends_at = end })
        (same_end r.ends_at r.activated_at)

  -- A live subscription of the user, with a plan and a wallet that covers a positive price: if the
  -- click is answered, which leaves `s`, and the messages are shown, the renewal ends normally,
  -- whatever the panel answers, with the wallet charged by the price, a completed order of that price
  -- added, and the row linked to the order and longer by the bytes or the days bought; time is
  -- counted from the end, or else from the activation, if there is one.
  pub renew_confirm_payment_renews :
      ((x : Session) → o.telegram x (Call.edit_text Text.renewal_success) ≡ answer tt)
      → (t : Session) × (renew_confirm_payment o telegram_id q before ≡ ok tt t)
        × (get_by_user_id u.id t ≡ some (record w { balance = w.balance -ℤ quantize 8 q.price }))
        × (find (belongs_to r.id r.user_id) t.subscriptions ≡ some (extended_row q.type))
        × (t.orders ≡ new_order ∷ s.orders)
        × (t.poisoned ≡ s.poisoned)
  unfolding renew
  renew_confirm_payment_renews told =
      let (t, e, h) = synced in
      let (t', e', h') =
        notify_admins_ok o Text.admin_notice (log (Call.edit_text Text.renewal_success) t) in
      (
        t',
        reaches ∙ rw (shown, pay_renewal_pays, e, told t, e') refl,
        ap (λ (x : Session). get_by_user_id u.id x) (whole t t' h h') ∙ wallet_there,
        ap (λ (x : Session). find (belongs_to r.id r.user_id) x.subscriptions) (whole t t' h h')
            ∙ (row_there ∙ ap some (same_row q.type)),
        ap (λ (x : Session). x.orders) (whole t t' h h') ∙ orders_there,
        ap (λ (x : Session). x.poisoned) (whole t t' h h') ∙ sound_there,
      )
    where
      whole :
          (t t' : Session)
          → t ≡ record renewed { calls = t.calls }
          → t' ≡ record t { calls = t'.calls }
          → t' ≡ record renewed { calls = t'.calls }
      whole t t' h h' = h' ∙ ap (λ (x : Session). record x { calls = t'.calls }) h
