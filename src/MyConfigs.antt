-- ===== src/MyConfigs.antt =====
-- apps/bot/handlers/user/my_configs.py: the handlers by which a user changes a configuration. What
-- they only show is left out: `safe_edit_or_send` raises nothing and changes no row. The answer to
-- the click, which may raise, comes first. The relations
-- of a subscription to its client, inbound and server are read from the rows.
pub mod Ending
pub mod Rows
pub mod Links
pub mod Switch
pub mod Cancel
pub mod Sparing
pub mod Usage
pub mod Parts
pub mod Ownership
use marzbot.Base.{
  ℕ, Bool, true, false, not, ◌&&◌, ◌||◌, Option, none, some, [], ◌∷◌, ◌==◌, is_some, take,
  if◌then◌else◌, String,
}
use marzbot.Base.Int.{ℤ, pos, leb_ℤ}
use marzbot.Base.Decimal.{of_money}
use marzbot.Base.Table.{find, modify}
use marzbot.Models.{
  Uuid, Str, Order, OrderStatus, Plan, User, Subscription, SubscriptionStatus, XuiClientRecord,
  XuiInboundRecord, XuiServerRecord,
}
use marzbot.Session.{
  Session, Action, Exn, Outside, XuiClient, Call, pure, gets, draw, catch, call_panel,
  call_telegram, modify_session, ◌>>=◌, ◌>>◌,
}
use marzbot.Runtime.{
  build_sub_link, ensure_inbound_server_loaded, existing_sub_id, inbound_has_id, server_has_id,
}
use marzbot.Wallet.{Request, process_transaction}
use marzbot.Provisioning.{set_order_status}
use marzbot.Provisioning.Refund.{
  belongs_to, client_of_subscription, deactivate_client, expiry_ms, is_pending_activation, panel_id,
  plan_of,
}
use marzbot.Purchase.{get_by_telegram_id}
use marzbot.Sync.{is_live}

-- The subscription asked for, if it belongs to the user who asks.
abbrev pub owned_of : Uuid → Option User → Session → Option (User × Subscription)
owned_of i none s = none
owned_of i (some u) s = elim (find (belongs_to i u.id) s.subscriptions) [
  | none ↦ none
  | some r ↦ some (u, r)
]

unfoldable pub owned : ℕ → Uuid → Session → Option (User × Subscription)
owned telegram_id i s = owned_of i (get_by_telegram_id telegram_id s) s

-- `xui_client` with its inbound and server, if all are there.
abbrev pub Place : Type 0
Place = XuiClientRecord × XuiInboundRecord × XuiServerRecord

abbrev pub place_at : XuiClientRecord → XuiInboundRecord → Option XuiServerRecord → Option Place
place_at c i none = none
place_at c i (some r) = some (c, i, r)

abbrev pub place_in : XuiClientRecord → Option XuiInboundRecord → Session → Option Place
place_in c none s = none
place_in c (some i) s = place_at c i (find (server_has_id i.server_id) s.servers)

abbrev pub place_of_client : Option XuiClientRecord → Session → Option Place
place_of_client none s = none
place_of_client (some c) s = place_in c (find (inbound_has_id c.inbound_id) s.inbounds) s

unfoldable pub place_of : Uuid → Session → Option Place
place_of i s = place_of_client (find (client_of_subscription i) s.xui_clients) s

-- `health_status != "deleted" and is_active`
abbrev pub is_usable : XuiServerRecord → Bool
is_usable r = not r.is_deleted && r.is_active

-- A write to the subscription that was found, and to its client.
unfoldable pub change_subscription :
    Subscription → (Subscription → Subscription) → Session → Session
change_subscription r f s = record s {
  subscriptions = modify (belongs_to r.id r.user_id) f s.subscriptions;
}

unfoldable pub change_client : Uuid → (XuiClientRecord → XuiClientRecord) → Session → Session
change_client i f s = record s { xui_clients = modify (client_of_subscription i) f s.xui_clients }

-- The settings that the panel is to store.
unfoldable pub settings_of : Subscription → XuiClientRecord → Str → Str → Bool → Str → XuiClient
settings_of r c id uuid enable sub_id = record {
  id = id;
  uuid = uuid;
  email = c.email;
  limit_ip = 1;
  total_gb = r.volume_bytes;
  expiry_time = expiry_ms r.ends_at;
  enable = enable;
  sub_id = sub_id;
  comment = c.username;
}

unfoldable pub relinked_client : Str → Str → XuiClientRecord → XuiClientRecord
relinked_client uuid link c = record c {
  client_uuid = uuid;
  xui_client_remote_id = some uuid;
  sub_link = some link;
}

unfoldable pub relinked : Str → Subscription → Subscription
relinked link r = record r { sub_link = some link }

module _ (o : Outside) where
  -- The `try` block of the new link: nothing is written unless the panel took the client.
  unfoldable pub relink : Subscription → Place → Str → Str → Action (Unit {0})
  unfolding settings_of
  relink r (c, i, v) new_uuid new_sub_id = do
    server ← ensure_inbound_server_loaded i
    call_panel o (
        Call.update_client server.id i.xui_inbound_remote_id
          (panel_id c.xui_client_remote_id c.client_uuid)
          (settings_of r c new_uuid new_uuid c.is_active new_sub_id))
    let link = build_sub_link o server new_sub_id
    modify_session (change_client r.id (relinked_client new_uuid link))
    modify_session (change_subscription r (relinked link))

  unfoldable pub reset_at : Bool → Subscription → Place → Action (Unit {0})
  reset_at false r place = pure tt
  reset_at true r place = do
    first ← draw o
    second ← draw o
    catch (relink r place (o.uuid_str first) (take 16 (o.uuid_hex second))) (λ e. pure tt)

  unfoldable pub reset_placed : Bool → Subscription → Option Place → Action (Unit {0})
  reset_placed false r place = pure tt
  reset_placed true r none = pure tt
  reset_placed true r (some (c, i, v)) = reset_at (is_usable v) r (c, i, v)

  unfoldable pub reset_owned : Option (User × Subscription) → Action (Unit {0})
  reset_owned none = pure tt
  reset_owned (some (u, r)) = do
    place ← gets (place_of r.id)
    reset_placed (is_live r.status) r place

  unfoldable pub reset_uuid_handler : ℕ → Uuid → Action (Unit {0})
  reset_uuid_handler telegram_id i = do
    call_telegram o Call.answer_callback
    found ← gets (owned telegram_id i)
    reset_owned found

  unfoldable pub switch : Subscription → Place → Action (Unit {0})
  unfolding settings_of
  switch r (c, i, v) = do
    server ← ensure_inbound_server_loaded i
    let client_id = panel_id c.xui_client_remote_id c.client_uuid
    call_panel o (
        Call.update_client server.id i.xui_inbound_remote_id client_id (
          settings_of r c client_id c.client_uuid (not c.is_active)
            (existing_sub_id r.sub_link c.sub_link)))
    modify_session (change_client r.id (λ x. record x { is_active = not c.is_active }))

  unfoldable pub toggle_placed : Bool → Subscription → Option Place → Action (Unit {0})
  toggle_placed false r place = pure tt
  toggle_placed true r none = pure tt
  toggle_placed true r (some (c, i, v)) =
      if is_usable v then catch (switch r (c, i, v)) (λ e. pure tt) else pure tt

  unfoldable pub toggle_owned : Option (User × Subscription) → Action (Unit {0})
  toggle_owned none = pure tt
  toggle_owned (some (u, r)) = do
    place ← gets (place_of r.id)
    toggle_placed (is_live r.status) r place

  unfoldable pub toggle_enable_handler : ℕ → Uuid → Action (Unit {0})
  toggle_enable_handler telegram_id i = do
    call_telegram o Call.answer_callback
    found ← gets (owned telegram_id i)
    toggle_owned found
