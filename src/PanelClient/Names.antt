-- ===== src/PanelClient/Names.antt =====
-- What the synchronisation (apps/worker/jobs/subscriptions.py) reads in the messages of
-- services/xui/client.py.
use marzbot.Base.{◌≡◌, refl, true, some, [], ◌∷◌, ◌++◌, arith}
use marzbot.Base.Text.{codes}
use marzbot.Models.{Uuid, Str, Subscription, XuiClientRecord}
use marzbot.Session.{Session, Exn, Outside, Call, failure, ok, log}
use marzbot.Base.Table.{find}
use marzbot.Provisioning.Refund.{client_of_subscription, subscription_has_id}
use marzbot.Sync.{
  starts_with, is_within, says_not_found, sync_subscription, sync_client, on_reply, on_error,
  expire_missing, expire, expired_at,
}
use marzbot.Sync.Expiry.{find-expire}
use marzbot.PanelClient.{timeout_message, traffic_path}

starts_with-append : (t s : Str) → starts_with t (t ++ s) ≡ true
starts_with-append [] s = refl
starts_with-append (c ∷ t) s = ground (arith, starts_with-append t s)

starts_with-is_within : (t s : Str) → starts_with t s ≡ true → is_within t s ≡ true
starts_with-is_within t [] h = h
starts_with-is_within t (c ∷ s) h = ground arith

is_within-before : (t a s : Str) → is_within t s ≡ true → is_within t (a ++ s) ≡ true
is_within-before t [] s h = h
is_within-before t (c ∷ a) s h = ground (arith, is_within-before t a s h)

starts_with-after : (t s b : Str) → starts_with t s ≡ true → starts_with t (s ++ b) ≡ true
starts_with-after [] s b h = refl
starts_with-after (c ∷ t) [] b h = ground arith
starts_with-after (c ∷ t) (d ∷ s) b h = ground (arith, starts_with-after t s b)

is_within-after : (t s b : Str) → is_within t s ≡ true → is_within t (s ++ b) ≡ true
is_within-after t [] b h = starts_with-is_within t b (starts_with-after t [] b h)
is_within-after t (c ∷ s) b h = ground (arith, is_within-after t s b, starts_with-after t (c ∷ s) b)

timeout_message-says_not_found :
    (email : Str)
    → is_within (codes "404") email ≡ true
    → says_not_found (timeout_message (traffic_path email)) ≡ true
unfolding timeout_message traffic_path says_not_found
timeout_message-says_not_found email h =
    let path = codes "panel/api/inbounds/getClientTraffics/" in
    let inside =
      is_within-before (codes "404") (codes "Timed out while calling X-UI endpoint '")
        ((path ++ email) ++ codes "'.")
        (is_within-after (codes "404") (path ++ email) (codes "'.")
          (is_within-before (codes "404") path email h)) in
    rw inside (ground arith)

-- If the email of a subscription's client has "404" in it, one query of its traffic that times out
-- makes the synchronisation expire the subscription, whatever its volume and its end.
pub sync_subscription_expires_by_name :
    (o : Outside) (server_id : Uuid) (r found : Subscription) (client : XuiClientRecord)
    (s : Session)
    → find (subscription_has_id r.id) s.subscriptions ≡ some found
    → find (client_of_subscription r.id) s.xui_clients ≡ some client
    → is_within (codes "404") client.email ≡ true
    → let call = Call.get_client_traffic server_id client.email in
      o.panel_traffic s call
        ≡ failure (Exn.xui_request (timeout_message (traffic_path client.email)))
      → (t : Session) × (sync_subscription o server_id r s ≡ ok tt t)
        × (find (subscription_has_id r.id) t.subscriptions
            ≡ some (expired_at (o.utcnow (log call s)) r))
unfolding sync_subscription sync_client on_reply on_error expire_missing
sync_subscription_expires_by_name o server_id r found client s here has named fails =
    let asked = log (Call.get_client_traffic server_id client.email) s in
    let now = o.utcnow asked in
    (
      expire now r asked,
      rw (has, fails, timeout_message-says_not_found client.email named) refl,
      find-expire now r r found asked refl here,
    )
