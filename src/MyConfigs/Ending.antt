-- ===== src/MyConfigs/Ending.antt =====
-- apps/bot/handlers/user/my_configs.py: cancelling an unused configuration with a refund, and
-- deleting one.
use marzbot.Base.{ℕ, Bool, true, false, not, ◌&&◌, Option, none, some, ◌==◌, if◌then◌else◌}
use marzbot.Base.Int.{ℤ, pos, leb_ℤ}
use marzbot.Base.Decimal.{of_money}
use marzbot.Base.Table.{find}
use marzbot.Models.{Uuid, Order, OrderStatus, Plan, User, Subscription, SubscriptionStatus}
use marzbot.Session.{
  Session, Action, Outside, Call, pure, gets, catch, call_panel, call_telegram, modify_session,
  ◌>>=◌, ◌>>◌,
}
use marzbot.Runtime.{ensure_inbound_server_loaded}
use marzbot.Wallet.{Request, process_transaction}
use marzbot.Provisioning.{set_order_status}
use marzbot.Provisioning.Refund.{deactivate_client, is_pending_activation, panel_id, plan_of}
use marzbot.MyConfigs.{Place, change_subscription, is_usable, owned, place_of}

-- The last write to a subscription, with its status.
unfoldable pub ended : SubscriptionStatus → Subscription → Subscription
ended st r = record r { status = st; sub_link = none }

abbrev pub is_provisioned : OrderStatus → Bool
is_provisioned OrderStatus.provisioned = true
is_provisioned _ = false

abbrev pub same_plan : Option Uuid → Uuid → Bool
same_plan none i = false
same_plan (some j) i = i == j

-- `Order.user_id == user.id, Order.plan_id == sub.plan_id, Order.status == "provisioned"`
abbrev pub is_refundable_for : Uuid → Option Uuid → Order → Bool
is_refundable_for u plan_id order =
    order.user_id == u && same_plan plan_id order.plan_id && is_provisioned order.status

-- The latest such order.
unfoldable pub order_to_refund : Uuid → Option Uuid → Session → Option Order
order_to_refund u plan_id s = find (is_refundable_for u plan_id) s.orders

-- `order.amount if order else (sub.plan.price if sub.plan else Decimal("0"))`
abbrev pub price_of : Option Plan → ℤ
price_of none = pos 0
price_of (some p) = p.price

abbrev pub amount_to_refund : Option Order → Option Plan → ℤ
amount_to_refund none plan = price_of plan
amount_to_refund (some order) plan = order.amount

unfoldable pub cancel_request : Uuid → Uuid → ℤ → Request
cancel_request user_id subscription_id amount = record {
  user_id = user_id;
  amount = of_money amount;
  type = "refund";
  direction = "credit";
  currency = "USD";
  reference_type = some "subscription";
  reference_id = some subscription_id;
}

abbrev pub mark_order : Option Order → Session → Session
mark_order none s = s
mark_order (some order) s = set_order_status order.id OrderStatus.refunded s

module _ (o : Outside) where
  -- `delete_client` on the panel of the client.
  unfoldable pub delete_from_panel : Place → Action (Unit {0})
  delete_from_panel (c, i, v) = do
    server ← ensure_inbound_server_loaded i
    call_panel o (
        Call.delete_client server.id i.xui_inbound_remote_id
          (panel_id c.xui_client_remote_id c.client_uuid))

  -- The client's removal before a refund; `false` if the panel failed.
  unfoldable pub remove_usable : Bool → Uuid → Place → Action Bool
  unfolding delete_from_panel deactivate_client
  remove_usable false i place = modify_session (deactivate_client i) >> pure true
  remove_usable true i place =
      catch (delete_from_panel place >> modify_session (deactivate_client i) >> pure true)
        (λ e. pure false)

  unfoldable pub remove_client : Uuid → Option Place → Action Bool
  remove_client i none = pure true
  remove_client i (some (c, n, v)) = remove_usable (is_usable v) i (c, n, v)

-- `if refund_amount and refund_amount > 0: …`
unfoldable pub pay_back : Bool → Uuid → Subscription → Option Order → ℤ → Action (Unit {0})
unfolding cancel_request
pay_back false user_id r order amount = pure tt
pay_back true user_id r order amount = do
  process_transaction (cancel_request user_id r.id amount)
  modify_session (mark_order order)

unfoldable pub refund_if_removed : Bool → Uuid → Subscription → Action (Unit {0})
unfolding order_to_refund ended
refund_if_removed false user_id r = pure tt
refund_if_removed true user_id r = do
  order ← gets (order_to_refund user_id r.plan_id)
  plan ← gets (plan_of r.plan_id)
  let amount = amount_to_refund order plan
  pay_back (not (leb_ℤ amount (pos 0))) user_id r order amount
  modify_session (change_subscription r (ended SubscriptionStatus.refunded))

module _ (o : Outside) where
  -- Only a subscription that waits for its first use can be cancelled.
  unfoldable pub cancel_if : Bool → Uuid → Subscription → Action (Unit {0})
  cancel_if false user_id r = pure tt
  cancel_if true user_id r = do
    place ← gets (place_of r.id)
    removed ← remove_client o r.id place
    refund_if_removed removed user_id r

  unfoldable pub cancel_owned : Option (User × Subscription) → Action (Unit {0})
  cancel_owned none = pure tt
  cancel_owned (some (u, r)) =
      cancel_if (is_pending_activation r.status && r.used_bytes == 0) u.id r

  unfoldable pub cancel_and_refund_config : ℕ → Uuid → Action (Unit {0})
  cancel_and_refund_config telegram_id i = do
    call_telegram o Call.answer_callback
    found ← gets (owned telegram_id i)
    cancel_owned found

  -- The removal before a deletion, whose errors are only logged.
  unfoldable pub drop_client : Uuid → Option Place → Action (Unit {0})
  unfolding deactivate_client
  drop_client i none = pure tt
  drop_client i (some (c, n, v)) =
      (if is_usable v then catch (delete_from_panel o (c, n, v)) (λ e. pure tt) else pure tt)
      >> modify_session (deactivate_client i)

  unfoldable pub delete_owned : Option (User × Subscription) → Action (Unit {0})
  unfolding ended
  delete_owned none = pure tt
  delete_owned (some (u, r)) = do
    place ← gets (place_of r.id)
    drop_client r.id place
    modify_session (change_subscription r (ended SubscriptionStatus.cancelled))

  unfoldable pub delete_expired_config : ℕ → Uuid → Action (Unit {0})
  delete_expired_config telegram_id i = do
    call_telegram o Call.answer_callback
    found ← gets (owned telegram_id i)
    delete_owned found
