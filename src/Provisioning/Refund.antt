-- ===== src/Provisioning/Refund.antt =====
-- services/provisioning/manager.py: `process_zero_usage_refund` and `_disable_xui_client`.
pub mod Outcome
use marzbot.Base.{
  ℕ, ◌*◌, Bool, true, false, not, ◌&&◌, Option, none, some, [], ◌∷◌, ◌++◌, ◌==◌, is_some,
}
use marzbot.Base.Text.{codes}
use marzbot.Base.Table.{find, modify}
use marzbot.Models.{
  Uuid, Time, Str, Order, Subscription, SubscriptionStatus, pending_activation, XuiClientRecord,
  OrderStatus, Plan,
}
use marzbot.Session.{
  Session, Action, Exn, Outside, XuiClient, Call, raise_if, pure, gets, or_raise, call_panel,
  modify_session, ◌>>=◌, ◌>>◌,
}
use marzbot.Runtime.{ensure_inbound_server_loaded, inbound_has_id}
use marzbot.Wallet.{process_transaction}
use marzbot.Provisioning.{order_has_id, plan_has_id, set_order_status}
use marzbot.Purchase.Finalize.{wallet_request}

abbrev pub subscription_has_id : Uuid → Subscription → Bool
subscription_has_id i r = r.id == i

-- `Subscription.id == subscription_id, Subscription.user_id == user_id`
abbrev pub belongs_to : Uuid → Uuid → Subscription → Bool
belongs_to i user_id r = r.id == i && r.user_id == user_id

abbrev pub is_pending_activation : SubscriptionStatus → Bool
is_pending_activation pending_activation = true
is_pending_activation _ = false

-- A relation by an optional foreign key.
abbrev pub order_of : Option Uuid → Session → Option Order
order_of none s = none
order_of (some i) s = find (order_has_id i) s.orders

abbrev pub plan_of : Option Uuid → Session → Option Plan
plan_of none s = none
plan_of (some i) s = find (plan_has_id i) s.plans

abbrev pub client_of_subscription : Uuid → XuiClientRecord → Bool
client_of_subscription i r = r.subscription_id == i

-- `xui_record.xui_client_remote_id or xui_record.client_uuid`
abbrev pub panel_id : Option Str → Str → Str
panel_id none uuid = uuid
panel_id (some []) uuid = uuid
panel_id (some (c ∷ t)) uuid = c ∷ t

-- `int(ends_at.timestamp() * 1000) if ends_at is not None else 0`
abbrev pub expiry_ms : Option Time → ℕ
expiry_ms none = 0
expiry_ms (some t) = t * 1000

unfoldable pub deactivate_client : Uuid → Session → Session
deactivate_client i s = record s {
  xui_clients =
      modify (client_of_subscription i) (λ r. record r { is_active = false }) s.xui_clients;
}

-- All that is checked before the panel is called: the subscription and its order.
unfoldable pub eligible : Uuid → Uuid → Action (Subscription × Order)
eligible subscription_id user_id = do
  found ← gets (λ s. find (belongs_to subscription_id user_id) s.subscriptions)
  subscription ← or_raise found Exn.zero_usage_refund
  raise_if (not (is_pending_activation subscription.status)) Exn.zero_usage_refund
  raise_if (not (subscription.used_bytes == 0)) Exn.zero_usage_refund
  found_order ← gets (order_of subscription.order_id)
  order ← or_raise found_order Exn.zero_usage_refund
  found_plan ← gets (plan_of subscription.plan_id)
  plan ← or_raise found_plan Exn.zero_usage_refund
  pure (subscription, order)

unfoldable pub refunded_subscription : Time → Subscription → Subscription
refunded_subscription now r = record r {
  status = SubscriptionStatus.refunded;
  expired_at = some now;
}

-- The marks of a refund that has been paid.
unfoldable pub mark_refunded : Uuid → Uuid → Uuid → Time → Session → Session
unfolding set_order_status refunded_subscription
mark_refunded subscription_id user_id order_id now s =
    let t = set_order_status order_id OrderStatus.refunded s in
    record t {
      subscriptions =
          modify (belongs_to subscription_id user_id) (refunded_subscription now) t.subscriptions;
    }

module _ (o : Outside) where
  -- `_disable_xui_client`
  unfoldable pub disable_xui_client : XuiClientRecord → ℕ → Option Time → Action (Unit {0})
  disable_xui_client xui_record volume_bytes ends_at = do
    found ← gets (λ s. find (inbound_has_id xui_record.inbound_id) s.inbounds)
    inbound ← or_raise found Exn.provisioning_error
    server ← ensure_inbound_server_loaded inbound
    let client_id = panel_id xui_record.xui_client_remote_id xui_record.client_uuid
    call_panel o (
        Call.update_client server.id inbound.xui_inbound_remote_id client_id (record {
          id = client_id;
          uuid = xui_record.client_uuid;
          email = xui_record.email;
          limit_ip = 1;
          total_gb = volume_bytes;
          expiry_time = expiry_ms ends_at;
          enable = false;
          sub_id = [];
          comment = codes "disabled:" ++ o.uuid_str xui_record.subscription_id;
        }))

  -- `if xui_record is not None: …; xui_record.is_active = False`
  unfoldable pub withdraw_client : Subscription → Option XuiClientRecord → Action (Unit {0})
  unfolding disable_xui_client deactivate_client
  withdraw_client subscription none = pure tt
  withdraw_client subscription (some xui_record) = do
    disable_xui_client xui_record subscription.volume_bytes none
    modify_session (deactivate_client subscription.id)

  -- The money and the marks.
  unfoldable pub repay : Uuid → Subscription → Order → Action Subscription
  unfolding mark_refunded refunded_subscription wallet_request
  repay user_id subscription order = do
    process_transaction
        (wallet_request "refund" "credit" user_id order.amount order.currency order.id)
    now ← gets o.utcnow
    modify_session (mark_refunded subscription.id user_id order.id now)
    pure (refunded_subscription now subscription)

  unfoldable pub process_zero_usage_refund : Uuid → Uuid → Action Subscription
  process_zero_usage_refund subscription_id user_id = do
    (subscription, order) ← eligible subscription_id user_id
    client ← gets (λ s. find (client_of_subscription subscription.id) s.xui_clients)
    withdraw_client subscription client
    repay user_id subscription order
