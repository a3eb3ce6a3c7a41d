-- ===== src/Payment/Callback.antt =====
-- What one callback of the payment provider does to the books.
use marzbot.Base.{◌≡◌, refl, Bool, true, false, some, str_eq, is_some, Bool-cases, ◌∙◌, inl, inr}
use marzbot.Base.Int.{pos, ◌+ℤ◌, leb_ℤ}
use marzbot.Base.Decimal.{Decimal, quantize}
use marzbot.Base.Text.{strip, lower}
use marzbot.Models.{Str, Payment, Wallet}
use marzbot.Session.{Session, Outside, ok}
use marzbot.Wallet.{get_by_user_id, set_balance}
use marzbot.Payment.{set_payment, process_successful_payment}
use marzbot.Payment.Credit.{process_successful_payment_tops_up}
use marzbot.Payment.Webhook.{
  IpnPayload, IpnStatus, ignored, already_processed, processed, extract_credit_amount, is_empty,
  find_payment, noted, is_final, settle_ipn, credit_ipn, handle_nowpayments_ipn,
}

-- The guards that let a callback through to the credit, and those that end it.
module _ (o : Outside) (q : IpnPayload) (status : Str) (payment : Payment) (s : Session) where
  settle_ipn_credits :
      (amount : Decimal) (t : Session)
      → is_final status ≡ true
      → is_some payment.actually_paid ≡ false
      → extract_credit_amount q ≡ some amount
      → leb_ℤ amount.coefficient (pos 0) ≡ false
      → process_successful_payment o payment amount s ≡ ok tt t
      → settle_ipn o q status payment s ≡ ok processed t
  unfolding settle_ipn credit_ipn
  settle_ipn_credits amount t last due stated positive credited =
      rw (last, due, stated, positive, credited) refl

  settle_ipn_paid :
      is_some payment.actually_paid ≡ true
      → (answer : IpnStatus) × (settle_ipn o q status payment s ≡ ok answer s)
  unfolding settle_ipn
  settle_ipn_paid paid = elim (Bool-cases (is_final status)) [
    | inl e ↦ (already_processed, rw (e, paid) refl)
    | inr e ↦ (ignored, rw e refl)
  ]

module _ (o : Outside) (signature_is_valid : Bool) (q : IpnPayload) (s : Session)
    (payment : Payment) (named : is_empty (strip q.payment_id) ≡ false)
    (found : find_payment (strip q.payment_id) (strip q.order_id) s ≡ some payment) where
  abbrev status : Str
  status = lower (strip q.payment_status)

  abbrev seen : Payment
  seen = noted (strip q.payment_id) status payment

  abbrev noted_session : Session
  noted_session = set_payment payment.id (noted (strip q.payment_id) status) s

  settles :
      handle_nowpayments_ipn o signature_is_valid q s ≡ settle_ipn o q status seen noted_session
  unfolding handle_nowpayments_ipn
  settles = rw (named, found) refl

  -- A callback with a payment id that names a top-up not yet paid, with a final status and a
  -- positive amount, credits the user's wallet with the amount that the payload itself states,
  -- rounded to eight places, whether or not its signature is valid.
  pub handle_nowpayments_ipn_credits :
      (w : Wallet) (amount : Decimal)
      → is_final status ≡ true
      → is_some payment.actually_paid ≡ false
      → str_eq payment.kind "direct_purchase" ≡ false
      → extract_credit_amount q ≡ some amount
      → leb_ℤ amount.coefficient (pos 0) ≡ false
      → leb_ℤ (quantize 8 amount) (pos 0) ≡ false
      → get_by_user_id payment.user_id s ≡ some w
      → (t : Session) × (handle_nowpayments_ipn o signature_is_valid q s ≡ ok processed t)
        × (get_by_user_id payment.user_id t ≡ some (set_balance (w.balance +ℤ quantize 8 amount) w))
  unfolding noted set_payment
  handle_nowpayments_ipn_credits w amount final_status due kind stated positive positive'
        has_wallet =
      let (t, e, b) =
        process_successful_payment_tops_up o seen amount noted_session w due kind has_wallet
          positive' in
      (
        t,
        settles
            ∙ settle_ipn_credits o q status seen noted_session amount t final_status due stated
                positive e,
        b,
      )

  -- A callback for a payment that was paid before moves no money, whatever it states, and ends
  -- normally.
  pub handle_nowpayments_ipn_repeated :
      is_some payment.actually_paid ≡ true
      → (answer : IpnStatus) × (handle_nowpayments_ipn o signature_is_valid q s
          ≡ ok answer noted_session)
        × (noted_session.wallets ≡ s.wallets)
        × (noted_session.transactions ≡ s.transactions)
  unfolding noted set_payment
  handle_nowpayments_ipn_repeated paid =
      let (answer, e) = settle_ipn_paid o q status seen noted_session paid in
      (answer, settles ∙ e, refl, refl)
