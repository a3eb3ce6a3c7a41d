-- ===== src/Sync/Realtime.antt =====
-- What `get_realtime_usage` (apps/worker/jobs/subscriptions.py) writes and tells.
use marzbot.Base.{ℕ, ◌-◌, ◌≡◌, refl, Option, some, arith}
use marzbot.Base.Table.{find}
use marzbot.Models.{Time, Subscription, XuiClientRecord, XuiServerRecord, Plan}
use marzbot.Session.{Session, Outside, answer, Call, ok, log}
use marzbot.Provisioning.Refund.{client_of_subscription, subscription_has_id, plan_of}
use marzbot.Sync.{observed, activated, duration_of, write_subscription, write_usage}
use marzbot.Sync.Expiry.{find-write_subscription}
use marzbot.Sync.Jobs.{Usage, server_of, record_usage, fetch_usage, get_realtime_usage}

activated-id : (now : Time) (days : ℕ) (r : Subscription) → (activated now days r).id ≡ r.id
unfolding activated
activated-id now days r = ground arith

record_usage-writes :
    (o : Outside) (used : ℕ) (plan : Option Plan) (r found : Subscription) (s : Session)
    → find (subscription_has_id r.id) s.subscriptions ≡ some found
    → (t : Session) × (u : Usage) × (later : Session) × (record_usage o used plan r s ≡ ok u t)
      × (u.used_bytes ≡ used)
      × (u.remaining_bytes ≡ r.volume_bytes - used)
      × (find (subscription_has_id r.id) t.subscriptions
          ≡ some (activated (o.utcnow later) (duration_of plan) (observed (o.utcnow s) used r)))
unfolding record_usage observed write_usage
record_usage-writes o used plan r found s here =
    let now = o.utcnow s in
    let seen = observed now used r in
    let t0 = write_usage r.id used (write_subscription seen s) in
    let first = find-write_subscription r seen found s refl here in
    let row = activated (o.utcnow t0) (duration_of plan) seen in
    (
      write_subscription row t0,
      _,
      t0,
      refl,
      refl,
      refl,
      find-write_subscription r row seen t0 (activated-id (o.utcnow t0) (duration_of plan) seen)
          first,
    )

-- For a subscription on a reachable server whose traffic the panel tells, the usage told is the
-- traffic with what is left of the volume, and the row is written with the traffic and activated
-- by its first use, and not expired.
get_realtime_usage-writes :
    (o : Outside) (r found : Subscription) (client : XuiClientRecord) (server : XuiServerRecord)
    (used : ℕ) (s : Session)
    → find (subscription_has_id r.id) s.subscriptions ≡ some found
    → find (client_of_subscription r.id) s.xui_clients ≡ some client
    → server_of (some client) s ≡ some server
    → o.panel_traffic s (Call.get_client_traffic server.id client.email) ≡ answer used
    → (t : Session) × (u : Usage) × (later : Session) × (get_realtime_usage o r s ≡ ok (some u) t)
      × (u.used_bytes ≡ used)
      × (u.remaining_bytes ≡ r.volume_bytes - used)
      × (find (subscription_has_id r.id) t.subscriptions
          ≡ some (
              activated (o.utcnow later) (duration_of (plan_of r.plan_id s)) (
                observed
                  (o.utcnow (log (Call.get_client_traffic server.id client.email) s))
                  used
                  r)))
unfolding get_realtime_usage fetch_usage
get_realtime_usage-writes o r found client server used s here has on told =
    let asked = log (Call.get_client_traffic server.id client.email) s in
    let (t, u, later, e, a, b, row) =
      record_usage-writes o used (plan_of r.plan_id s) r found asked here in
    (t, u, later, rw (has, on, told, e) refl, a, b, row)
