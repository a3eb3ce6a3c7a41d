-- ===== src/Purchase/Gateway.antt =====
-- apps/bot/handlers/user/purchase.py: paying a plan by an invoice of NOWPayments.
pub mod Invoice
use marzbot.Base.{ℕ, Bool, true, false, Option, none, some, ◌∷◌, get_or, String}
use marzbot.Base.Int.{ℤ}
use marzbot.Base.Text.{codes}
use marzbot.Base.Table.{find}
use marzbot.Models.{Uuid, Str, Payment, PurchaseMeta, Plan, User}
use marzbot.Session.{
  Session, Action, Exn, Outside, Reply, answer, failure, Call, Fsm, pure, call_telegram, catch,
  catch_if, draw, gets, or_raise, log, modify_session, replied, clear_state, ◌>>=◌, ◌>>◌,
}
use marzbot.Pricing.{final_price}
use marzbot.Provisioning.{plan_has_id, usable_plan}
use marzbot.Purchase.{get_by_telegram_id}

-- The user and the plan; `none` unless both are there and the plan is active.
abbrev pub both_there : Option User → Option Plan → Option (User × Plan)
both_there none p = none
both_there (some u) none = none
both_there (some u) (some p) = some (u, p)

unfoldable pub load_unfunded : ℕ → Uuid → Session → Option (User × Plan)
load_unfunded telegram_id plan_id s =
    both_there (get_by_telegram_id telegram_id s) (usable_plan (find (plan_has_id plan_id) s.plans))

-- What the callback is to know of the purchase.
unfoldable pub purchase_meta : Uuid → Fsm → PurchaseMeta
purchase_meta plan_id fsm = record {
  plan_id = plan_id;
  config_name = get_or fsm.config_name (codes "VPN");
  discount_percent = get_or fsm.discount_percent 0;
  discount_id = fsm.discount_id;
}

unfoldable pub new_payment : Uuid → Uuid → Str → Str → ℤ → PurchaseMeta → Payment
new_payment id user_id invoice_id order_id price details = record {
  id = id;
  user_id = user_id;
  kind = "direct_purchase";
  provider_payment_id = none;
  provider_invoice_id = some invoice_id;
  order_id = some order_id;
  payment_status = codes "waiting";
  price_currency = "USD";
  price_amount = price;
  actually_paid = none;
  callback_payload = some details;
}

abbrev pub is_nowpayments_request : Exn → Bool
is_nowpayments_request Exn.nowpayments_request = true
is_nowpayments_request e = false

abbrev pub texted : Reply String → Reply Str
texted (answer i) = answer (codes i)
texted (failure e) = failure e

module _ (o : Outside) where
  -- `create_payment_invoice`, with the invoice's id
  abbrev pub call_invoice : ℤ → Action Str
  call_invoice price s =
      replied (texted (o.invoice s (Call.create_invoice price))) (log (Call.create_invoice price) s)

  -- The row of the invoice, and the end of the dialogue.
  unfoldable pub record_invoice : Uuid → Uuid → Fsm → ℤ → Uuid → Str → Action (Unit {0})
  unfolding new_payment purchase_meta
  record_invoice user_id plan_id fsm price local_order_id invoice_id = do
    id ← draw o
    modify_session λ s. record s {
      payments =
          new_payment id user_id invoice_id (o.uuid_str local_order_id) price
            (purchase_meta plan_id fsm)
          ∷ s.payments;
    }
    clear_state

  unfoldable pub record_if : Uuid → Uuid → Fsm → ℤ → Uuid → Option Str → Action (Unit {0})
  record_if user_id plan_id fsm price local_order_id none = pure tt
  record_if user_id plan_id fsm price local_order_id (some invoice_id) =
      record_invoice user_id plan_id fsm price local_order_id invoice_id

  -- The invoice; `none`, and the end of the dialogue, if the provider refuses.
  unfoldable pub ask_invoice : ℤ → Action (Option Str)
  ask_invoice price =
      catch_if is_nowpayments_request (do invoice_id ← call_invoice price; pure (some invoice_id))
        (λ e. clear_state >> pure none)

  unfoldable pub buy_by_invoice : Uuid → Fsm → Option (User × Plan) → Action (Unit {0})
  unfolding ask_invoice record_if
  buy_by_invoice plan_id fsm none = clear_state
  buy_by_invoice plan_id fsm (some (user, plan)) = do
    let price = final_price plan.price (get_or fsm.discount_percent 0)
    local_order_id ← draw o
    invoice_id ← ask_invoice price
    record_if user.id plan_id fsm price local_order_id invoice_id

  -- `_process_gateway_purchase`
  unfoldable pub process_gateway_purchase : ℕ → Action (Unit {0})
  unfolding load_unfunded buy_by_invoice
  process_gateway_purchase telegram_id = do
    fsm ← gets (λ s. s.fsm)
    plan_id ← or_raise fsm.plan_id Exn.key_error
    found ← gets (load_unfunded telegram_id plan_id)
    buy_by_invoice plan_id fsm found

  unfoldable pub pay_with_gateway : ℕ → Action (Unit {0})
  pay_with_gateway telegram_id =
      call_telegram o Call.answer_callback
      >> catch (process_gateway_purchase telegram_id) (λ e. clear_state)
