-- ===== src/Provisioning.antt =====
-- services/provisioning/manager.py: `ProvisioningManager`. The panel's client is opened and used
-- in one call (services/xui/client.py), which may raise. The text of a direct link
-- (`build_vless_uri`) is not modelled.
pub mod Identity
pub mod Checks
pub mod Contract
pub mod Refund
pub mod Capacity
use marzbot.Base.{
  ℕ, zero, suc, ◌+◌, Bool, true, false, not, ◌&&◌, ◌||◌, Option, none, some, List, [], ◌∷◌, ◌++◌,
  leb, ◌==◌, if◌then◌else◌, is_some, take,
}
use marzbot.Base.Text.{codes, codes_eq}
use marzbot.Base.Table.{find, find_last, modify, count}
use marzbot.Models.{
  Uuid, Str, Order, OrderStatus, provisioned, Subscription, SubscriptionStatus, pending_activation,
  XuiClientRecord, XuiServerRecord, XuiInboundRecord, Plan,
}
use marzbot.Session.{
  Session, Action, Run, Exn, Outside, XuiClient, Call, ok, err, raise, raise_if, pure, gets,
  or_raise, draw, call_panel, modify_session, ◌>>=◌, ◌>>◌,
}
use marzbot.Runtime.{build_sub_link, ensure_inbound_server_loaded, inbound_has_id}
use marzbot.Provisioning.Identity.{ClientIdentity, generate_unique_client_identity}

pub record ProvisioningResult : Type 0 where
  pub subscription : Subscription
  pub xui_client : XuiClientRecord
  pub sub_link : Str

abbrev pub plan_has_id : Uuid → Plan → Bool
plan_has_id i p = p.id == i

abbrev pub order_has_id : Uuid → Order → Bool
order_has_id i o = o.id == i

-- `plan is None or not plan.is_active`
abbrev pub usable_plan : Option Plan → Option Plan
usable_plan none = none
usable_plan (some p) = if p.is_active then some p else none

-- `order is None or order.user_id != user_id`
abbrev pub usable_order : Uuid → Option Order → Option Order
usable_order u none = none
usable_order u (some o) = if o.user_id == u then some o else none

abbrev pub inbound_is_active : XuiInboundRecord → Bool
inbound_is_active i = i.is_active

-- `plan.inbound`, or the oldest active inbound.
unfoldable pub inbound_of : Plan → Session → Option XuiInboundRecord
inbound_of plan s = elim plan.inbound_id [
  | none ↦ find_last inbound_is_active s.inbounds
  | some i ↦ elim (find (inbound_has_id i) s.inbounds) [
    | none ↦ find_last inbound_is_active s.inbounds
    | some r ↦ some r
  ]
]

-- The join of an active client with an inbound of the server.
abbrev pub counts_for : Uuid → List XuiInboundRecord → XuiClientRecord → Bool
counts_for server inbounds c =
    c.is_active && is_some (find (λ i. i.id == c.inbound_id && i.server_id == server) inbounds)

unfoldable pub active_count : Uuid → Session → ℕ
active_count server s = count (counts_for server s.inbounds) s.xui_clients

-- `server.max_clients is not None and active_count >= server.max_clients`
abbrev pub is_full : Option ℕ → ℕ → Bool
is_full none n = false
is_full (some m) n = leb m n

-- `XUIClientRecord`'s unique columns: a row that clashes makes the flush fail.
abbrev pub clashes : XuiClientRecord → XuiClientRecord → Bool
clashes r c =
    codes_eq c.email r.email
    || codes_eq c.client_uuid r.client_uuid
    || codes_eq c.username r.username

unfoldable pub insert_client : XuiClientRecord → Action (Unit {0})
insert_client r s =
    if is_some (find (clashes r) s.xui_clients)
    then err Exn.integrity_error (record s { poisoned = true })
    else ok tt (record s { xui_clients = r ∷ s.xui_clients })

unfoldable pub set_order_status : Uuid → OrderStatus → Session → Session
set_order_status i st s = record s {
  orders = modify (order_has_id i) (λ o. record o { status = st }) s.orders;
}

-- All that is checked before an identity is drawn: the inbound and the server to use.
unfoldable pub choose_inbound :
    Uuid → Uuid → Uuid → Action (Plan × XuiInboundRecord × XuiServerRecord)
unfolding inbound_of active_count
choose_inbound user_id plan_id order_id = do
  found ← gets (λ s. usable_plan (find (plan_has_id plan_id) s.plans))
  plan ← or_raise found Exn.provisioning_error
  found_order ← gets (λ s. usable_order user_id (find (order_has_id order_id) s.orders))
  order ← or_raise found_order Exn.provisioning_error
  found_inbound ← gets (inbound_of plan)
  inbound ← or_raise found_inbound Exn.provisioning_error
  raise_if (not inbound.is_active) Exn.provisioning_error
  server ← ensure_inbound_server_loaded inbound
  raise_if (not server.is_active) Exn.provisioning_error
  n ← gets (active_count server.id)
  raise_if (is_full server.max_clients n) Exn.provisioning_error
  pure (plan, inbound, server)

module _ (o : Outside) where
  unfoldable pub new_subscription : Uuid → Uuid → Uuid → Uuid → Plan → Str → Subscription
  new_subscription id user_id plan_id order_id plan sub_link = record {
    id = id;
    user_id = user_id;
    order_id = some order_id;
    plan_id = some plan_id;
    status = pending_activation;
    starts_at = none;
    ends_at = none;
    activated_at = none;
    expired_at = none;
    volume_bytes = plan.volume_bytes;
    used_bytes = 0;
    sub_link = some sub_link;
    last_usage_sync_at = none;
  }

  -- What is sent to the panel, before any row is written.
  unfoldable pub panel_payload : Uuid → Uuid → Plan → ClientIdentity → Str → XuiClient
  panel_payload user_id order_id plan who email = record {
    id = who.client_uuid;
    uuid = who.client_uuid;
    email = email;
    limit_ip = 1;
    total_gb = plan.volume_bytes;
    expiry_time = 0;
    enable = true;
    sub_id = who.sub_id;
    comment = codes "user:" ++ (o.uuid_str user_id ++ (codes ";order:" ++ o.uuid_str order_id));
  }

  -- The rows that are written once the panel has the client.
  unfoldable pub record_client :
      Uuid
      → Uuid
      → Uuid
      → Plan
      → XuiInboundRecord
      → ClientIdentity
      → Str
      → Str
      → Str
      → Action ProvisioningResult
  unfolding insert_client new_subscription set_order_status
  record_client user_id plan_id order_id plan inbound who config_name email sub_link = do
    sub_row_id ← draw o
    let subscription = new_subscription sub_row_id user_id plan_id order_id plan sub_link
    modify_session (λ s. record s { subscriptions = subscription ∷ s.subscriptions })
    client_row_id ← draw o
    let row : XuiClientRecord = record {
      id = client_row_id;
      subscription_id = sub_row_id;
      inbound_id = inbound.id;
      xui_client_remote_id = some who.client_uuid;
      email = email;
      client_uuid = who.client_uuid;
      username = config_name;
      sub_link = some sub_link;
      usage_bytes = 0;
      is_active = true;
    }
    insert_client row
    modify_session (set_order_status order_id provisioned)
    pure (record { subscription = subscription; xui_client = row; sub_link = sub_link })

  unfoldable pub provision_subscription : Uuid → Uuid → Uuid → Str → Action ProvisioningResult
  unfolding choose_inbound record_client panel_payload
  provision_subscription user_id plan_id order_id config_name = do
    (plan, inbound, server) ← choose_inbound user_id plan_id order_id
    who ← generate_unique_client_identity o
    let email = config_name ++ (codes "_" ++ take 6 who.sub_id)
    let sub_link = build_sub_link o server who.sub_id
    call_panel o (
        Call.add_client server.id inbound.xui_inbound_remote_id
          (panel_payload user_id order_id plan who email))
    record_client user_id plan_id order_id plan inbound who config_name email sub_link
