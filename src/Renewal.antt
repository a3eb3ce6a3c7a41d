-- ===== src/Renewal.antt =====
-- apps/bot/handlers/user/renewal.py: `renew_confirm_payment`. The price and the amount come from the
-- button; what `int` makes of the amount is computed on its exact value. The numbers that the dialogue
-- before it computes in floating point are not modelled.
pub mod Charge
use marzbot.Base.{ℕ, ◌+◌, ◌*◌, ◌/◌, ◌^◌, Bool, true, false, not, Option, none, some, ◌∷◌, String}
use marzbot.Base.Int.{ℤ, pos, ◌*ℤ◌, ltb_ℤ}
use marzbot.Base.Decimal.{Decimal, quantize}
use marzbot.Base.Table.{find}
use marzbot.Models.{
  Uuid, Time, Str, Order, OrderStatus, Subscription, User, Wallet, XuiClientRecord,
  XuiInboundRecord, XuiServerRecord,
}
use marzbot.Session.{
  Session, Action, Outside, XuiClient, Call, Text, pure, gets, draw, catch, call_panel,
  call_telegram, modify_session, ◌>>=◌, ◌>>◌,
}
use marzbot.Runtime.{ensure_inbound_server_loaded, existing_sub_id}
use marzbot.Wallet.{Request, get_by_user_id, process_transaction}
use marzbot.Provisioning.Refund.{belongs_to, expiry_ms}
use marzbot.Notifications.{notify_admins}
use marzbot.Purchase.{get_by_telegram_id}
use marzbot.Sync.{is_live}
use marzbot.MyConfigs.{Place, change_subscription, place_of}

pub data RenewType : Type 0 where
  volume time : RenewType

-- An amount above zero: `digits / 10 ^ places`.
pub record Amount : Type 0 where
  pub digits : ℕ
  pub places : ℕ

-- `RenewConfirmCallback`
pub record RenewConfirm : Type 0 where
  pub sub_id : Uuid
  pub type : RenewType
  pub amount : Amount
  pub price : Decimal

-- `int(amount * scale)`
abbrev pub int_of : Amount → ℕ → ℕ
int_of a scale = a.digits * scale / 10 ^ a.places

-- `user.wallet.balance < price`
unfoldable pub is_short : ℤ → Decimal → Bool
is_short balance price =
    ltb_ℤ (balance *ℤ pos (10 ^ price.places)) (price.coefficient *ℤ pos (10 ^ 8))

-- The end of the time after a renewal by `days`; without an end or an activation there is none.
abbrev pub later_end : ℕ → Option Time → Option Time → Option Time
later_end days (some t) activated_at = some (t + days * 86400)
later_end days none (some t) = some (t + days * 86400)
later_end days none none = none

unfoldable pub extended : RenewType → Amount → Subscription → Subscription
extended volume a r = record r { volume_bytes = r.volume_bytes + int_of a (1024 ^ 3) }
extended time a r = record r { ends_at = later_end (int_of a 1) r.ends_at r.activated_at }

unfoldable pub renewal_request : Uuid → Decimal → Uuid → Request
renewal_request user_id price order_id = record {
  user_id = user_id;
  amount = price;
  type = "renewal";
  direction = "debit";
  currency = "USD";
  reference_type = some "order";
  reference_id = some order_id;
}

unfoldable pub renewal_order : Uuid → Uuid → Uuid → Decimal → Order
renewal_order id user_id plan_id price = record {
  id = id;
  user_id = user_id;
  plan_id = plan_id;
  status = OrderStatus.completed;
  source = "bot";
  amount = quantize 8 price;
  currency = "USD";
}

unfoldable pub linked_to : Uuid → Subscription → Subscription
linked_to order_id r = record r { order_id = some order_id }

-- The settings that the panel is to store after the renewal.
unfoldable pub renewed_settings : Subscription → XuiClientRecord → XuiClient
unfolding existing_sub_id
renewed_settings r c = record {
  id = c.client_uuid;
  uuid = c.client_uuid;
  email = c.email;
  limit_ip = 1;
  total_gb = r.volume_bytes;
  expiry_time = expiry_ms r.ends_at;
  enable = true;
  sub_id = existing_sub_id r.sub_link c.sub_link;
  comment = c.username;
}

module _ (o : Outside) where
  abbrev pub edit : Text → Action (Unit {0})
  edit text = call_telegram o (Call.edit_text text)

  unfoldable pub update_panel : Subscription → Place → Action (Unit {0})
  update_panel r (c, n, v) = do
    server ← ensure_inbound_server_loaded n
    call_panel o
        (Call.update_client server.id n.xui_inbound_remote_id c.client_uuid (renewed_settings r c))

  -- The panel's part of the renewal, whose errors are only logged.
  unfoldable pub sync_panel : Subscription → Option Place → Action (Unit {0})
  sync_panel r none = pure tt
  sync_panel r (some place) = catch (update_panel r place) (λ e. pure tt)

  -- The money and the row.
  unfoldable pub pay_renewal : RenewConfirm → User → Subscription → Uuid → Action Subscription
  pay_renewal q u r plan_id = do
    order_id ← draw o
    modify_session
        (λ s. record s { orders = renewal_order order_id u.id plan_id q.price ∷ s.orders })
    modify_session (change_subscription r (linked_to order_id))
    process_transaction (renewal_request u.id q.price order_id)
    modify_session (change_subscription r (extended q.type q.amount))
    pure (extended q.type q.amount (linked_to order_id r))

  unfoldable pub renew : RenewConfirm → User → Subscription → Uuid → Action (Unit {0})
  renew q u r plan_id = do
    edit Text.processing
    renewed ← pay_renewal q u r plan_id
    place ← gets (place_of r.id)
    sync_panel renewed place
    edit Text.renewal_success
    notify_admins o Text.admin_notice

  unfoldable pub renew_if_covered :
      Bool → RenewConfirm → User → Subscription → Uuid → Action (Unit {0})
  renew_if_covered true q u r plan_id = edit Text.insufficient_balance
  renew_if_covered false q u r plan_id = renew q u r plan_id

  unfoldable pub renew_planned :
      RenewConfirm → User → Wallet → Subscription → Option Uuid → Action (Unit {0})
  unfolding is_short
  renew_planned q u w r none = edit Text.plan_deleted
  renew_planned q u w r (some plan_id) = renew_if_covered (is_short w.balance q.price) q u r plan_id

  unfoldable pub renew_live : Bool → RenewConfirm → User → Wallet → Subscription → Action (Unit {0})
  renew_live false q u w r = edit Text.service_invalid
  renew_live true q u w r = renew_planned q u w r r.plan_id

  unfoldable pub renew_found :
      RenewConfirm → User → Wallet → Option Subscription → Action (Unit {0})
  renew_found q u w none = edit Text.service_invalid
  renew_found q u w (some r) = renew_live (is_live r.status) q u w r

  unfoldable pub renew_walleted : RenewConfirm → User → Option Wallet → Action (Unit {0})
  renew_walleted q u none = edit Text.wallet_missing
  renew_walleted q u (some w) = do
    found ← gets (λ s. find (belongs_to q.sub_id u.id) s.subscriptions)
    renew_found q u w found

  unfoldable pub renew_user : RenewConfirm → Option User → Action (Unit {0})
  renew_user q none = edit Text.wallet_missing
  renew_user q (some u) = do w ← gets (get_by_user_id u.id); renew_walleted q u w

  unfoldable pub renew_confirm_payment : ℕ → RenewConfirm → Action (Unit {0})
  renew_confirm_payment telegram_id q = do
    call_telegram o Call.answer_callback
    user ← gets (get_by_telegram_id telegram_id)
    renew_user q user
