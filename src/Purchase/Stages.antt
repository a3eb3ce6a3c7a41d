-- ===== src/Purchase/Stages.antt =====
-- The stages of `_finalize_purchase` as equations: the payment, the refund, and an error that escapes.
use marzbot.Base.{ℕ, ◌≡◌, refl, true, false, some, ◌∷◌, String, arith, ap, ◌∙◌, ==_iff, inl, inr}
use marzbot.Base.Int.{ℤ, pos, ◌≤ℤ◌, ◌+ℤ◌, ◌-ℤ◌, int_laws}
use marzbot.Base.Decimal.{quantize-of_money}
use marzbot.Models.{Str, Wallet, OrderStatus, Plan, User, credit, debit, refunded}
use marzbot.Session.{
  Session, Exn, Outside, ok, err, final, is_provisioning_error, Call, Text, log, Reply-cases,
}
use marzbot.Wallet.{
  Request, get_by_user_id, set_balance, post, normalized_direction-credit,
  normalized_direction-debit,
}
use marzbot.Wallet.Branches.{exceeds}
use marzbot.Wallet.Ledger.{get_by_user_id-post}
use marzbot.Wallet.Amounts.{process_transaction-Posted}
use marzbot.Provisioning.{provision_subscription, set_order_status}
use marzbot.Purchase.Finalize.{
  wallet_request, new_order, place_order, charge, refund, provision_or_refund, finalize_purchase,
}

-- The session once the order is placed, and once it is paid from the wallet.
abbrev pub ordered : Outside → User → Plan → String → ℤ → Session → Session
ordered o user plan source price s = final (place_order o user plan source price s)

abbrev pub debit_of : Outside → User → Plan → ℤ → Session → Request
debit_of o user plan price s =
    wallet_request "purchase" "debit" user.id price plan.currency (o.uuid4 s.drawn)

abbrev pub credit_of : Outside → User → Plan → ℤ → Session → Request
credit_of o user plan price s =
    wallet_request "refund" "credit" user.id price plan.currency (o.uuid4 s.drawn)

abbrev pub paid : Outside → User → Plan → ℤ → Wallet → Session → Session
paid o user plan price w s =
    post (debit_of o user plan price s) debit w price (ordered o user plan "bot" price s)

-- The order that was placed is the one that a mark reaches.
pub orders-set_order_status :
    (o : Outside) (user : User) (plan : Plan) (source : String) (price : ℤ) (st : OrderStatus)
    (s s' : Session)
    → s'.orders ≡ (ordered o user plan source price s).orders
    → (set_order_status (o.uuid4 s.drawn) st s').orders
      ≡ record (new_order (o.uuid4 s.drawn) user plan source price) { status = st } ∷ s.orders
unfolding set_order_status place_order new_order
orders-set_order_status o user plan source price st s s' same =
    rw (same, (==_iff (o.uuid4 s.drawn) (o.uuid4 s.drawn)).1 refl) refl

module _ (o : Outside) (chat : ℕ) (user : User) (plan : Plan) (price : ℤ) (name : Str) (s : Session)
    (w : Wallet) (found : get_by_user_id user.id s ≡ some w) (positive : pos 1 ≤ℤ price)
    (within : exceeds debit w price ≡ false) where
  pub charge_pays :
      charge o chat user plan price (o.uuid4 s.drawn) (ordered o user plan "bot" price s)
      ≡ ok true (paid o user plan price w s)
  unfolding charge place_order wallet_request
  charge_pays =
      rw
        (process_transaction-Posted (debit_of o user plan price s) debit price
          (quantize-of_money price) normalized_direction-debit (ordered o user plan "bot" price s) w
          found (ground arith) within)
        refl

  -- The wallet and the balance that the payment leaves.
  pub get_by_user_id-paid :
      get_by_user_id user.id (paid o user plan price w s)
      ≡ some (set_balance (w.balance -ℤ price) w)
  unfolding wallet_request place_order
  get_by_user_id-paid =
      get_by_user_id-post (debit_of o user plan price s) debit w price
        (ordered o user plan "bot" price s) found

  -- An error that is not one of provisioning ends the purchase with what was written so far.
  pub finalize_purchase_escapes :
      (e : Exn) (s' : Session)
      → provision_subscription o user.id plan.id (o.uuid4 s.drawn) name (paid o user plan price w s)
        ≡ err e s'
      → is_provisioning_error e ≡ false
      → finalize_purchase o chat user plan price name s ≡ err e s'
  unfolding finalize_purchase provision_or_refund place_order
  finalize_purchase_escapes e s' failed foreign = rw (charge_pays, failed, foreign) refl

  -- A wallet that was paid from is whole again after the refund.
  repaid : set_balance (w.balance -ℤ price +ℤ price) w ≡ w
  repaid = let same : w.balance -ℤ price +ℤ price ≡ w.balance = omega int_laws in rw same refl

  module _ (s' : Session)
      (whole : s' ≡ record (paid o user plan price w s) { drawn = s'.drawn }) where
    abbrev pub restored : Session
    restored =
        post (credit_of o user plan price s) credit (set_balance (w.balance -ℤ price) w) price s'

    abbrev pub refunded_session : Session
    refunded_session = set_order_status (o.uuid4 s.drawn) refunded restored

    left : get_by_user_id user.id s' ≡ some (set_balance (w.balance -ℤ price) w)
    left = rw whole get_by_user_id-paid

    refund_pays : refund o user plan price (o.uuid4 s.drawn) s' ≡ ok tt refunded_session
    unfolding refund wallet_request
    refund_pays =
        rw
          (process_transaction-Posted (credit_of o user plan price s) credit price
            (quantize-of_money price) normalized_direction-credit s'
            (set_balance (w.balance -ℤ price) w) left (ground arith) refl)
          refl

    pub refund_restores : get_by_user_id user.id refunded_session ≡ some w
    unfolding wallet_request set_order_status
    refund_restores =
        get_by_user_id-post (credit_of o user plan price s) credit
          (set_balance (w.balance -ℤ price) w) price s' left
        ∙ ap some repaid

    pub refunded_rows :
        (refunded_session.orders
          ≡ record (new_order (o.uuid4 s.drawn) user plan "bot" price) { status = refunded }
            ∷ s.orders)
        × (refunded_session.subscriptions ≡ s.subscriptions)
        × (refunded_session.xui_clients ≡ s.xui_clients)
    unfolding post place_order set_order_status
    refunded_rows = (
      orders-set_order_status o user plan "bot" price refunded s restored
          (ap (λ (t : Session). t.orders) whole),
      ap (λ (t : Session). t.subscriptions) whole,
      ap (λ (t : Session). t.xui_clients) whole,
    )

    -- The message is sent or not; the rows are those of the refund.
    pub finalize_purchase_refund :
        (e : Exn)
        → provision_subscription o user.id plan.id
            (o.uuid4 s.drawn)
            name
            (paid o user plan price w s)
          ≡ err e s'
        → is_provisioning_error e ≡ true
        → final (finalize_purchase o chat user plan price name s)
          ≡ log (Call.send_message chat Text.provisioning_failed_refunded) refunded_session
    unfolding finalize_purchase provision_or_refund place_order
    finalize_purchase_refund e failed own =
        elim (Reply-cases (
          o.telegram refunded_session (Call.send_message chat Text.provisioning_failed_refunded))) [
            | inl (a, e) ↦ rw (charge_pays, failed, own, refund_pays, e) refl
            | inr (x, e) ↦ rw (charge_pays, failed, own, refund_pays, e) refl
          ]
