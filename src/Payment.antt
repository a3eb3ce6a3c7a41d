-- ===== src/Payment.antt =====
-- services/payment.py: `process_successful_payment` and `_handle_direct_purchase`.
pub mod Webhook
pub mod Poll
pub mod Credit
pub mod Callback
use marzbot.Base.{ℕ, Bool, true, false, Option, none, some, String, str_eq, ◌==◌, is_some}
use marzbot.Base.Int.{ℤ}
use marzbot.Base.Decimal.{Decimal, quantize}
use marzbot.Base.Table.{find, modify}
use marzbot.Models.{Uuid, Payment, PurchaseMeta, Plan, User, Wallet, provisioned, refunded}
use marzbot.Session.{
  Session, Action, Outside, Call, Text, pure, catch, catch_if, gets, modify_session, call_telegram,
  is_provisioning_error, ◌>>=◌, ◌>>◌,
}
use marzbot.Pricing.{final_price}
use marzbot.Wallet.{Request, get_by_user_id, process_transaction}
use marzbot.Provisioning.{ProvisioningResult, plan_has_id, provision_subscription, set_order_status}
use marzbot.Purchase.Finalize.{wallet_request, place_order, mark, announce}

abbrev pub payment_has_id : Uuid → Payment → Bool
payment_has_id i p = p.id == i

abbrev pub user_has_id : Uuid → User → Bool
user_has_id i u = u.id == i

unfoldable pub set_payment : Uuid → (Payment → Payment) → Session → Session
set_payment i f s = record s { payments = modify (payment_has_id i) f s.payments }

unfoldable pub credit_request : Payment → Decimal → Request
credit_request payment amount = record {
  user_id = payment.user_id;
  amount = amount;
  type = "deposit";
  direction = "credit";
  currency = payment.price_currency;
  reference_type = some "payment";
  reference_id = some payment.id;
}

-- The user and the plan, if both are there and the user has a wallet.
abbrev pub both : Option User → Option Plan → Session → Option (User × Plan)
both none p s = none
both (some u) none s = none
both (some u) (some p) s = elim (get_by_user_id u.id s) [ none ↦ none | some w ↦ some (u, p) ]

unfoldable pub load_purchase : Uuid → Uuid → Session → Option (User × Plan)
load_purchase user_id plan_id s =
    both (find (user_has_id user_id) s.users) (find (plan_has_id plan_id) s.plans) s

module _ (o : Outside) where
  -- Provisioning, with the refund of `except ProvisioningError`.
  unfoldable pub provision_direct :
      User → Plan → ℤ → PurchaseMeta → Uuid → Action (Option ProvisioningResult)
  unfolding wallet_request
  provision_direct user plan price details order_id =
      catch_if is_provisioning_error
        (do
          config ← provision_subscription o user.id plan.id order_id details.config_name
          pure (some config))
        λ e. do
          process_transaction
              (wallet_request "refund" "credit" user.id price plan.currency order_id)
          mark order_id refunded
          catch (call_telegram o (Call.send_message user.telegram_id Text.refund_notice))
              (λ x. pure tt)
          pure none

  -- `order.status = "provisioned"`, and the messages, whose failure is only logged.
  unfoldable pub finish_direct : User → Uuid → Option ProvisioningResult → Action (Unit {0})
  unfolding set_order_status
  finish_direct user order_id none = pure tt
  finish_direct user order_id (some config) =
      mark order_id provisioned >> catch (announce o user.telegram_id) (λ e. pure tt)

  -- The order, the debit and the provisioning of a direct purchase.
  unfoldable pub purchase_direct : PurchaseMeta → User × Plan → Action (Unit {0})
  unfolding place_order wallet_request
  purchase_direct details (user, plan) = do
    let price = final_price plan.price details.discount_percent
    order_id ← place_order o user plan "gateway" price
    process_transaction (wallet_request "purchase" "debit" user.id price plan.currency order_id)
    done ← provision_direct user plan price details order_id
    finish_direct user order_id done

  -- `_handle_direct_purchase`: without the details, the user, the plan or the wallet it returns.
  unfoldable pub purchase_loaded : PurchaseMeta → Option (User × Plan) → Action (Unit {0})
  purchase_loaded details none = pure tt
  purchase_loaded details (some loaded) = purchase_direct details loaded

  unfoldable pub purchase_described : Payment → Option PurchaseMeta → Action (Unit {0})
  purchase_described payment none = pure tt
  purchase_described payment (some details) = do
    found ← gets (load_purchase payment.user_id details.plan_id)
    purchase_loaded details found

  unfoldable pub handle_direct_purchase : Payment → Action (Unit {0})
  unfolding purchase_described purchase_loaded
  handle_direct_purchase payment = purchase_described payment payment.callback_payload

  -- `if payment.kind == "direct_purchase": try: … except Exception: …`
  unfoldable pub purchase_if : Bool → Payment → Action (Unit {0})
  purchase_if true payment = catch (handle_direct_purchase payment) (λ e. pure tt)
  purchase_if false payment = pure tt

  -- The steps behind the guard: the mark, the credit, and the purchase whose errors are swallowed.
  unfoldable pub credit_payment : Payment → Decimal → Action (Unit {0})
  unfolding set_payment credit_request
  credit_payment payment amount = do
    modify_session
        (set_payment payment.id (λ p. record p { actually_paid = some (quantize 8 amount) }))
    process_transaction (credit_request payment amount)
    purchase_if (str_eq payment.kind "direct_purchase") payment

  -- `if payment.actually_paid is not None: return`
  unfoldable pub credit_unless : Bool → Payment → Decimal → Action (Unit {0})
  credit_unless true payment amount = pure tt
  credit_unless false payment amount = credit_payment payment amount

  unfoldable pub process_successful_payment : Payment → Decimal → Action (Unit {0})
  unfolding credit_unless
  process_successful_payment payment amount =
      credit_unless (is_some payment.actually_paid) payment amount
