-- ===== src/Payment/Credit.antt =====
-- The books under `process_successful_payment` (services/payment.py).
use marzbot.Base.{
  ◌≡◌, refl, true, false, Option, Bool-cases, inl, inr, ==_iff, none, some, ap, ◌∙◌, sym, arith,
  str_eq, is_some,
}
use marzbot.Base.Int.{ℤ, pos, ◌+ℤ◌, leb_ℤ}
use marzbot.Base.Decimal.{Decimal, quantize}
use marzbot.Base.Table.{find, find-modify_self}
use mathlib.Core.Option.{some-injective}
use marzbot.Models.{Uuid, Str, Payment, PurchaseMeta, Plan, User, Wallet, credit}
use marzbot.Session.{Session, Outside, ok, final}
use marzbot.Wallet.{
  Request, get_by_user_id, set_balance, post, process_transaction, normalized_direction-credit,
}
use marzbot.Wallet.Branches.{process_transaction-keeps}
use marzbot.Wallet.Ledger.{get_by_user_id-post}
use marzbot.Wallet.Amounts.{process_transaction-Posted}
use marzbot.Provisioning.{provision_subscription, set_order_status}
use marzbot.Provisioning.Contract.{PanelIsForeign, provision_subscription-Provisions}
use marzbot.Purchase.Finalize.{place_order}
use marzbot.Purchase.Messages.{announce-OnlyCalls}
use marzbot.Payment.{
  payment_has_id, set_payment, credit_request, provision_direct, purchase_direct,
  handle_direct_purchase, load_purchase, credit_payment, purchase_described, purchase_loaded,
  finish_direct, purchase_if, process_successful_payment,
}

process_transaction-payments :
    (q : Request) (s : Session) → (final (process_transaction q s)).payments ≡ s.payments
unfolding post
process_transaction-payments q s =
    process_transaction-keeps (λ t. t.payments ≡ s.payments) q s refl
      (λ w d found positive within. refl)

module _ (o : Outside) (foreign : PanelIsForeign o) where
  provision-payments :
      (user_id plan_id order_id : Uuid) (name : Str) (s : Session)
      → (final (provision_subscription o user_id plan_id order_id name s)).payments ≡ s.payments
  provision-payments user_id plan_id order_id name s =
      ground (arith, provision_subscription-Provisions o user_id plan_id order_id name s foreign)

  provision_direct-payments :
      (user : User) (plan : Plan) (price : ℤ) (details : PurchaseMeta) (order_id : Uuid)
      (s : Session)
      → (final (provision_direct o user plan price details order_id s)).payments ≡ s.payments
  unfolding provision_direct set_order_status
  provision_direct-payments user plan price details order_id s =
      grind (arith, process_transaction-payments, provision-payments)

  purchase_direct-payments :
      (details : PurchaseMeta) (loaded : User × Plan) (s : Session)
      → (final (purchase_direct o details loaded s)).payments ≡ s.payments
  unfolding purchase_direct finish_direct place_order set_order_status
  purchase_direct-payments details (user, plan) s =
      grind (arith, process_transaction-payments, provision_direct-payments, announce-OnlyCalls)

  handle_direct_purchase-payments :
      (payment : Payment) (s : Session)
      → (final (handle_direct_purchase o payment s)).payments ≡ s.payments
  unfolding handle_direct_purchase
  handle_direct_purchase-payments payment s = ground (arith, purchased payment.callback_payload)
    where
      purchased :
          (details : Option PurchaseMeta)
          → (final (purchase_described o payment details s)).payments ≡ s.payments
      purchased none = refl
      purchased (some details) = loaded details (load_purchase payment.user_id details.plan_id s)
        where
          loaded :
              (details : PurchaseMeta) (found : Option (User × Plan))
              → (final (purchase_loaded o details found s)).payments ≡ s.payments
          loaded details none = refl
          loaded details (some l) = purchase_direct-payments details l s

  credit_payment-payments :
      (payment : Payment) (amount : Decimal) (s : Session)
      → (final (credit_payment o payment amount s)).payments
        ≡ (set_payment payment.id
            (λ p. record p { actually_paid = some (quantize 8 amount) })
            s).payments
  unfolding credit_payment purchase_if
  credit_payment-payments payment amount s =
      grind (arith, process_transaction-payments, handle_direct_purchase-payments)

  -- The payment is marked as paid after the call.
  process_successful_payment-marks :
      (payment : Payment) (amount : Decimal) (s : Session) (p' : Payment)
      → find (payment_has_id payment.id) s.payments ≡ some payment
      → find
          (payment_has_id payment.id)
          (final (process_successful_payment o payment amount s)).payments
        ≡ some p'
      → is_some p'.actually_paid ≡ true
  unfolding process_successful_payment set_payment
  process_successful_payment-marks payment amount s p' found found' =
      elim (Bool-cases (is_some payment.actually_paid)) [
        | inl paid ↦
            let same : payment ≡ p' = some-injective _ _ (sym found ∙ (rw paid at found')) in
            rw (← ap (λ (p : Payment). is_some p.actually_paid) same) paid
        | inr due ↦
            let after = rw (due, credit_payment-payments payment amount s) at found' in
            let written =
              find-modify_self (payment_has_id payment.id)
                (λ p. record p { actually_paid = some (quantize 8 amount) }) s.payments found
                ((==_iff payment.id payment.id).1 refl) in
            let same = some-injective _ _ (sym written ∙ after) in
            sym (ap (λ (p : Payment). is_some p.actually_paid) same)
      ]

  -- If panel errors are never provisioning errors: once a payment that was found by its id has
  -- been processed, to whatever end, the same payment, read again, is not processed a second
  -- time: with any amount the call changes nothing.
  pub process_successful_payment_once :
      (payment : Payment) (amount again : Decimal) (s : Session) (p' : Payment)
      → find (payment_has_id payment.id) s.payments ≡ some payment
      → find
          (payment_has_id payment.id)
          (final (process_successful_payment o payment amount s)).payments
        ≡ some p'
      → process_successful_payment o p' again
          (final (process_successful_payment o payment amount s))
        ≡ ok tt (final (process_successful_payment o payment amount s))
  process_successful_payment_once payment amount again s p' found found' =
      skipped p' again (final (process_successful_payment o payment amount s))
        (process_successful_payment-marks payment amount s p' found found')
    where
      skipped :
          (p : Payment) (a : Decimal) (t : Session)
          → is_some p.actually_paid ≡ true
          → process_successful_payment o p a t ≡ ok tt t
      skipped p a t paid = unfold process_successful_payment in rw paid refl

-- A top-up that has not been processed, with an amount that is positive when rounded to eight
-- places, adds the rounded amount to the wallet that the payment's user has.
pub process_successful_payment_tops_up :
    (o : Outside) (payment : Payment) (amount : Decimal) (s : Session) (w : Wallet)
    → is_some payment.actually_paid ≡ false
    → str_eq payment.kind "direct_purchase" ≡ false
    → get_by_user_id payment.user_id s ≡ some w
    → leb_ℤ (quantize 8 amount) (pos 0) ≡ false
    → (t : Session) × (process_successful_payment o payment amount s ≡ ok tt t)
      × (get_by_user_id payment.user_id t ≡ some (set_balance (w.balance +ℤ quantize 8 amount) w))
unfolding process_successful_payment credit_payment purchase_if credit_request
process_successful_payment_tops_up o payment amount s w due kind found positive =
    let marked =
      set_payment payment.id (λ p. record p { actually_paid = some (quantize 8 amount) }) s in
    let q = credit_request payment amount in
    let posted =
      process_transaction-Posted q credit (quantize 8 amount) refl normalized_direction-credit
        marked w (same found) positive refl in
    (
      post q credit w (quantize 8 amount) marked,
      rw (due, posted, kind) refl,
      get_by_user_id-post q credit w (quantize 8 amount) marked (same found),
    )
  where
    same :
        get_by_user_id payment.user_id s ≡ some w
        → get_by_user_id payment.user_id
            (set_payment payment.id (λ p. record p { actually_paid = some (quantize 8 amount) }) s)
          ≡ some w
    same e = unfold set_payment in e
