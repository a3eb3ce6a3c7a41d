-- ===== src/Sync.antt =====
-- apps/worker/jobs/subscriptions.py: `sync_xui_usage_and_status` on the subscriptions of one server.
-- The source runs its tasks at once; each works on a subscription and a client of its own, and they
-- run here one after the other.
pub mod Expiry
pub mod Jobs
pub mod Grouping
pub mod Realtime
use marzbot.Base.{
  ℕ, ◌+◌, ◌*◌, Bool, true, false, ◌&&◌, ◌||◌, Option, none, some, List, [], ◌∷◌, ◌++◌, leb, ltb,
  ◌==◌, if◌then◌else◌,
}
use marzbot.Base.Text.{codes}
use marzbot.Base.Table.{find, modify}
use marzbot.Models.{
  Uuid, Time, Str, Subscription, SubscriptionStatus, pending_activation, active, expired,
  XuiClientRecord, XuiInboundRecord, Plan,
}
use marzbot.Session.{
  Session, Action, Run, ok, Exn, Outside, Reply, answer, failure, XuiClient, Call, pure, raise,
  gets, draw, catch_if, is_xui_client_error, call_panel, log, modify_session, ◌>>=◌, ◌>>◌,
}
use marzbot.Runtime.{existing_sub_id, inbound_has_id}
use marzbot.Provisioning.Refund.{
  subscription_has_id, client_of_subscription, panel_id, expiry_ms, is_pending_activation, plan_of,
}

-- `text in s`
abbrev pub starts_with : Str → Str → Bool
starts_with [] s = true
starts_with (c ∷ t) [] = false
starts_with (c ∷ t) (d ∷ s) = c == d && starts_with t s

abbrev pub is_within : Str → Str → Bool
is_within t [] = starts_with t []
is_within t (c ∷ s) = starts_with t (c ∷ s) || is_within t s

unfoldable pub says_not_found : Str → Bool
says_not_found m = is_within (codes "No traffic stats found") m || is_within (codes "404") m

-- The plan's duration, or `DEFAULT_PLAN_DURATION_DAYS`.
abbrev pub duration_of : Option Plan → ℕ
duration_of none = 30
duration_of (some p) = p.duration_days

-- What the traffic tells of the subscription, and its first use.
unfoldable pub observed : Time → ℕ → Subscription → Subscription
observed now used r = record r { used_bytes = used; last_usage_sync_at = some now }

unfoldable pub activated : Time → ℕ → Subscription → Subscription
activated now days r =
    if is_pending_activation r.status && ltb 0 r.used_bytes
    then record r {
      status = active;
      activated_at = some now;
      starts_at = some now;
      ends_at = some (now + days * 86400);
    }
    else r

abbrev pub is_over : Option Time → Time → Bool
is_over none now = false
is_over (some t) now = ltb t now

abbrev pub is_live : SubscriptionStatus → Bool
is_live pending_activation = true
is_live active = true
is_live _ = false

-- `should_expire_for_volume` or `should_expire_for_time`, of a subscription that is live.
unfoldable pub is_due : Time → Subscription → Bool
is_due now r =
    is_live r.status
    && (leb r.volume_bytes r.used_bytes && ltb 0 r.volume_bytes || is_over r.ends_at now)

-- The subscription behind a traffic that the panel told.
unfoldable pub seen_at : Time → ℕ → Option Plan → Subscription → Subscription
unfolding observed activated
seen_at now used plan r = activated now (duration_of plan) (observed now used r)

unfoldable pub write_subscription : Subscription → Session → Session
write_subscription r s = record s {
  subscriptions = modify (subscription_has_id r.id) (λ old. r) s.subscriptions;
}

unfoldable pub write_usage : Uuid → ℕ → Session → Session
write_usage i used s = record s {
  xui_clients =
      modify (client_of_subscription i) (λ c. record c { usage_bytes = used }) s.xui_clients;
}

unfoldable pub expired_at : Time → Subscription → Subscription
expired_at now r = record r { status = expired; expired_at = some now }

-- `status = "expired"`, `expired_at = now`, and the client inactive.
unfoldable pub expire : Time → Subscription → Session → Session
unfolding write_subscription expired_at
expire now r s =
    let t = write_subscription (expired_at now r) s in
    record t {
      xui_clients =
          modify (client_of_subscription r.id) (λ c. record c { is_active = false }) t.xui_clients;
    }

-- The settings that the two updates send, with the UUID and the comment that they differ in.
unfoldable pub disabling : Subscription → XuiClientRecord → Str → Str → XuiClient
unfolding existing_sub_id
disabling r client uuid comment = record {
  id = panel_id client.xui_client_remote_id client.client_uuid;
  uuid = uuid;
  email = client.email;
  limit_ip = 1;
  total_gb = r.volume_bytes;
  expiry_time = expiry_ms r.ends_at;
  enable = false;
  sub_id = existing_sub_id r.sub_link client.sub_link;
  comment = comment;
}

module _ (o : Outside) (server_id : Uuid) where
  abbrev pub update : XuiClientRecord → XuiInboundRecord → XuiClient → Action (Unit {0})
  update client inbound settings =
      catch_if is_xui_client_error
        (call_panel o (
          Call.update_client server_id inbound.xui_inbound_remote_id
            (panel_id client.xui_client_remote_id client.client_uuid) settings))
        λ e. pure tt

  -- `_reset_client_uuid`; without the inbound it returns.
  unfoldable pub reset_client_uuid :
      Subscription → XuiClientRecord → Option XuiInboundRecord → Action (Unit {0})
  unfolding disabling
  reset_client_uuid r client none = pure tt
  reset_client_uuid r client (some inbound) = do
    new_uuid ← draw o
    update client inbound
        (disabling r client (o.uuid_str new_uuid) (codes "uuid_reset:" ++ o.uuid_str r.id))

  -- `_disable_client_in_xui`
  unfoldable pub disable_client_in_xui :
      Subscription → XuiClientRecord → Option XuiInboundRecord → Action (Unit {0})
  unfolding disabling
  disable_client_in_xui r client none = pure tt
  disable_client_in_xui r client (some inbound) =
      update client inbound
        (disabling r client client.client_uuid (codes "expired:" ++ o.uuid_str r.id))

  unfoldable pub expire_if : Bool → Time → Subscription → XuiClientRecord → Action (Unit {0})
  expire_if false now r client = pure tt
  expire_if true now r client = do
    inbound ← gets (λ s. find (inbound_has_id client.inbound_id) s.inbounds)
    reset_client_uuid r client inbound
    disable_client_in_xui r client inbound
    modify_session (expire now r)

  unfoldable pub observe : ℕ → Subscription → XuiClientRecord → Action (Unit {0})
  observe used r client = do
    now ← gets o.utcnow
    plan ← gets (plan_of r.plan_id)
    modify_session (λ s. write_usage r.id used (write_subscription (seen_at now used plan r) s))
    expire_if (is_due now (seen_at now used plan r)) now (seen_at now used plan r) client

  unfoldable pub expire_missing : Bool → Subscription → Action (Unit {0})
  unfolding expire
  expire_missing false r = pure tt
  expire_missing true r = do now ← gets o.utcnow; modify_session (expire now r)

  -- `except XUIRequestError`, `except XUIClientError`
  unfoldable pub on_error : Exn → Subscription → Action (Unit {0})
  unfolding expire_missing says_not_found
  on_error (Exn.xui_request m) r = expire_missing (says_not_found m) r
  on_error Exn.xui_authentication r = pure tt
  on_error e r = raise e

  unfoldable pub on_reply : Reply ℕ → Subscription → XuiClientRecord → Action (Unit {0})
  on_reply (answer used) r client = observe used r client
  on_reply (failure e) r client = on_error e r

  unfoldable pub sync_client : Subscription → Option XuiClientRecord → Action (Unit {0})
  sync_client r none s = ok tt s
  sync_client r (some client) s =
      let call = Call.get_client_traffic server_id client.email in
      on_reply (o.panel_traffic s call) r client (log call s)

  unfoldable pub sync_subscription : Subscription → Action (Unit {0})
  sync_subscription r s = sync_client r (find (client_of_subscription r.id) s.xui_clients) s

  unfoldable pub sync_xui_usage_and_status : List Subscription → Action (Unit {0})
  unfolding sync_subscription
  sync_xui_usage_and_status [] = pure tt
  sync_xui_usage_and_status (r ∷ rs) = do sync_subscription r; sync_xui_usage_and_status rs
