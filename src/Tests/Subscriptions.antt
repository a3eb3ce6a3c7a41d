-- ===== src/Tests/Subscriptions.antt =====
-- A subscription that is refunded, and one that the job activates.
use marzbot.Base.{◌≡◌, refl, true, none, some, [], ◌∷◌, arith}
use marzbot.Base.Table.{find}
use marzbot.Base.Text.{codes}
use marzbot.Models.{Subscription, pending_activation, XuiClientRecord}
use marzbot.Session.{Session, answer, ok, Outside}
use marzbot.Provisioning.Refund.{process_zero_usage_refund, subscription_has_id}
use marzbot.Provisioning.Refund.Outcome.{Refunds, process_zero_usage_refund-Refunds}
use marzbot.Sync.{sync_subscription}
use marzbot.Sync.Expiry.{RaisesXui, Follows, sync_subscription-Follows}
use marzbot.Tests.World.{shop, inbound}
use marzbot.Tests.Purchase.{up}
use marzbot.Tests.Provisioning.{order}

abbrev pub waiting : Subscription
waiting = record {
  id = 20;
  user_id = 1;
  order_id = some 11;
  plan_id = some 3;
  status = pending_activation;
  starts_at = none;
  ends_at = none;
  activated_at = none;
  expired_at = none;
  volume_bytes = 1000;
  used_bytes = 0;
  sub_link = some (codes "http://a.b:1/sub/x");
  last_usage_sync_at = none;
}

abbrev pub client : XuiClientRecord
client = record {
  id = 21;
  subscription_id = 20;
  inbound_id = 4;
  xui_client_remote_id = none;
  email = codes "me_x";
  client_uuid = codes "c";
  username = codes "me";
  sub_link = none;
  usage_bytes = 0;
  is_active = true;
}

abbrev pub subscribed : Session
subscribed = record (shop (inbound ∷ [])) {
  orders = order ∷ [];
  subscriptions = waiting ∷ [];
  xui_clients = client ∷ [];
}

process_zero_usage_refund-Refunds_example :
    Refunds 20 1 subscribed (process_zero_usage_refund up 20 1 subscribed)
process_zero_usage_refund-Refunds_example = process_zero_usage_refund-Refunds up 20 1 subscribed

-- A panel that tells of more traffic than the volume of the subscription.
abbrev busy : Outside
busy = record up { panel_traffic = λ s c. answer 2000 }

busy-RaisesXui : RaisesXui busy
busy-RaisesXui s c e same = ground arith

sync_subscription-Follows_example :
    (t : Session) × (r' : Subscription) × (sync_subscription busy 5 waiting subscribed ≡ ok tt t)
    × (find (subscription_has_id 20) t.subscriptions ≡ some r')
    × Follows 0 2000 30 waiting r'
sync_subscription-Follows_example =
    sync_subscription-Follows busy 5 busy-RaisesXui waiting waiting client 2000 subscribed refl refl
      refl refl
