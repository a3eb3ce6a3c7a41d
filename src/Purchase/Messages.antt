-- ===== src/Purchase/Messages.antt =====
-- The stages of `_finalize_purchase` that end in messages: the announcement of a new client, and
-- the refusal of a price that the wallet does not cover.
use marzbot.Base.{ℕ, ◌≡◌, refl, true, false, some, arith, inl, inr}
use marzbot.Base.Int.{ℤ, pos, ◌≤ℤ◌}
use marzbot.Base.Decimal.{quantize-of_money}
use marzbot.Models.{Str, Wallet, Plan, User, debit, failed, provisioned}
use marzbot.Session.{Session, Outside, ok, final, Call, Text, log, Reply-cases}
use marzbot.Wallet.{get_by_user_id, normalized_direction-debit}
use marzbot.Wallet.Branches.{exceeds}
use marzbot.Wallet.Amounts.{process_transaction-insufficient}
use marzbot.Provisioning.{ProvisioningResult, provision_subscription, set_order_status}
use marzbot.Notifications.Silent.{OnlyCalls, notify_admins-OnlyCalls}
use marzbot.Purchase.Finalize.{
  wallet_request, place_order, charge, provision_or_refund, send_qr, announce, finalize_purchase,
}
use marzbot.Purchase.Stages.{paid, ordered, debit_of, charge_pays}

-- The messages write no row.
pub announce-OnlyCalls : (o : Outside) (chat : ℕ) (s : Session) → OnlyCalls s (announce o chat s)
unfolding announce send_qr
announce-OnlyCalls o chat s = grind (arith, notify_admins-OnlyCalls)

module _ (o : Outside) (chat : ℕ) (user : User) (plan : Plan) (price : ℤ) (name : Str) (s : Session)
    (w : Wallet) (found : get_by_user_id user.id s ≡ some w) (positive : pos 1 ≤ℤ price) where
  pub finalize_purchase_announces :
      exceeds debit w price ≡ false
      → (r : ProvisioningResult) (s' : Session)
      → provision_subscription o user.id plan.id (o.uuid4 s.drawn) name (paid o user plan price w s)
        ≡ ok r s'
      → finalize_purchase o chat user plan price name s
        ≡ announce o chat (set_order_status (o.uuid4 s.drawn) provisioned s')
  unfolding finalize_purchase provision_or_refund place_order
  finalize_purchase_announces within r s' done =
      rw (charge_pays o chat user plan price name s w found positive within, done) refl

  abbrev failed_session : Session
  failed_session = set_order_status (o.uuid4 s.drawn) failed (ordered o user plan "bot" price s)

  pub finalize_purchase_refused :
      exceeds debit w price ≡ true
      → final (finalize_purchase o chat user plan price name s)
        ≡ log
            (Call.send_message chat Text.balance_not_sufficient_anymore)
            (set_order_status (o.uuid4 s.drawn) failed (ordered o user plan "bot" price s))
  unfolding finalize_purchase charge place_order wallet_request
  finalize_purchase_refused over =
      let refused =
        process_transaction-insufficient (debit_of o user plan price s) debit price
          (quantize-of_money price) normalized_direction-debit (ordered o user plan "bot" price s) w
          found (ground arith) over in
      elim (Reply-cases
        (o.telegram failed_session (Call.send_message chat Text.balance_not_sufficient_anymore))) [
          | inl (a, e) ↦ rw (refused, e) refl
          | inr (x, e) ↦ rw (refused, e) refl
        ]
