-- ===== src/Tests/Payment.antt =====
-- Payments: a top-up that is credited once, its callback, and the polling job.
use marzbot.Base.{◌≡◌, refl, true, false, some, [], ◌∷◌}
use marzbot.Base.Int.{pos, ◌+ℤ◌, ◌*ℤ◌, leb_ℤ, abs}
use marzbot.Base.Decimal.{Decimal, quantize}
use marzbot.Base.Text.{codes, strip, lower}
use marzbot.Models.{Payment}
use marzbot.Session.{Session, ok, final, nested}
use marzbot.Wallet.{
  get_by_user_id, set_balance, process_transaction, transact, normalized_direction, post,
}
use marzbot.Payment.{process_successful_payment, set_payment, credit_payment, purchase_if}
use marzbot.Payment.Credit.{process_successful_payment_once, process_successful_payment_tops_up}
use marzbot.Payment.Webhook.{
  IpnPayload, IpnStatus, absent, number, processed, find_payment, extract_credit_amount, is_final,
  is_empty, noted, handle_nowpayments_ipn,
}
use marzbot.Payment.Callback.{handle_nowpayments_ipn_credits, handle_nowpayments_ipn_repeated}
use marzbot.Payment.Poll.{sync_pending_payments}
use marzbot.Payment.Poll.Silence.{NotCredited, sync_pending_payments-NotCredited}
use marzbot.Tests.World.{shop, wallet, payment}
use marzbot.Tests.Purchase.{up, up-PanelIsForeign}

-- One unit of money, as `Decimal` holds it.
abbrev one : Decimal
one = record { coefficient = pos 1; places = 0 }

one-quantize : quantize 8 one ≡ pos 100_000_000
unfolding quantize ◌*ℤ◌
one-quantize = refl

one_positive : leb_ℤ (quantize 8 one) (pos 0) ≡ false
one_positive = rw one-quantize refl

abbrev credited : Session
credited = final (process_successful_payment up payment one (shop []))

process_successful_payment_tops_up_example :
    (t : Session) × (process_successful_payment up payment one (shop []) ≡ ok tt t)
    × (get_by_user_id 1 t ≡ some (set_balance (pos 500_000_000 +ℤ quantize 8 one) wallet))
process_successful_payment_tops_up_example =
    process_successful_payment_tops_up up payment one (shop []) wallet refl refl refl one_positive

abbrev payment_paid : Payment
payment_paid = record payment { actually_paid = some (quantize 8 one) }

reread : credited.payments ≡ payment_paid ∷ []
unfolding process_successful_payment set_payment process_transaction transact normalized_direction
    quantize ◌*ℤ◌ credit_payment nested purchase_if post
reread = refl

process_successful_payment_once_example :
    process_successful_payment up payment_paid one credited ≡ ok tt credited
process_successful_payment_once_example =
    process_successful_payment_once up up-PanelIsForeign payment one one (shop []) payment_paid refl
      (rw reread refl)

abbrev ipn : IpnPayload
ipn = record {
  payment_id = codes " 77";
  payment_status = codes "Finished";
  order_id = [];
  price_amount = number (record { coefficient = pos 900; places = 0 });
  actually_paid = absent;
}

-- The payload states nine hundred units.
abbrev stated : Decimal
stated = record { coefficient = pos 900; places = 0 }

ipn_found : find_payment (strip (codes " 77")) (strip []) (shop []) ≡ some payment
unfolding find_payment strip
ipn_found = refl

ipn_named : is_empty (strip (codes " 77")) ≡ false
unfolding strip
ipn_named = refl

ipn_final : is_final (lower (strip (codes "Finished"))) ≡ true
unfolding is_final lower strip
ipn_final = refl

ipn_states : extract_credit_amount ipn ≡ some stated
unfolding extract_credit_amount abs
ipn_states = refl

stated_positive : leb_ℤ (quantize 8 stated) (pos 0) ≡ false
unfolding quantize ◌*ℤ◌
stated_positive = refl

handle_nowpayments_ipn_credits_example :
    (t : Session) × (handle_nowpayments_ipn up false ipn (shop []) ≡ ok processed t)
    × (get_by_user_id 1 t ≡ some (set_balance (pos 500_000_000 +ℤ quantize 8 stated) wallet))
handle_nowpayments_ipn_credits_example =
    handle_nowpayments_ipn_credits up false ipn (shop []) payment ipn_named ipn_found wallet stated
      ipn_final refl refl ipn_states refl stated_positive refl

abbrev repaid_shop : Session
repaid_shop = record (shop []) { payments = payment_paid ∷ [] }

repaid_found : find_payment (strip (codes " 77")) (strip []) repaid_shop ≡ some payment_paid
unfolding find_payment strip
repaid_found = refl

handle_nowpayments_ipn_repeated_example :
    let after =
      set_payment 6 (noted (strip (codes " 77")) (lower (strip (codes "Finished")))) repaid_shop in
    (answer : IpnStatus) × (handle_nowpayments_ipn up true ipn repaid_shop ≡ ok answer after)
    × (after.wallets ≡ repaid_shop.wallets)
    × (after.transactions ≡ repaid_shop.transactions)
handle_nowpayments_ipn_repeated_example =
    handle_nowpayments_ipn_repeated up true ipn repaid_shop payment_paid ipn_named repaid_found refl

sync_pending_payments-NotCredited_example :
    NotCredited (shop []) (final (sync_pending_payments up (shop [])))
sync_pending_payments-NotCredited_example = sync_pending_payments-NotCredited up (shop [])
