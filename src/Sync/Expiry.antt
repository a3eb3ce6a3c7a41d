-- ===== src/Sync/Expiry.antt =====
-- The life of a subscription under the synchronisation (apps/worker/jobs/subscriptions.py).
use marzbot.Base.{
  ℕ, ◌+◌, ◌*◌, ◌≤◌, ◌<◌, ◌≡◌, refl, ◌⊎◌, inl, inr, true, false, Option, none, some, arith,
  Bool-cases, ap, ◌∙◌, sym, ==_iff, ◌==◌,
}
use marzbot.Models.{
  Uuid, Time, Subscription, pending_activation, active, expired, XuiClientRecord, XuiInboundRecord,
  Plan,
}
use marzbot.Session.{Session, Exn, Outside, answer, failure, Call, ok, log}
use marzbot.Session.{XuiClient, is_xui_client_error, Reply-cases}
use marzbot.Base.Text.{codes}
use marzbot.Base.{◌++◌}
use marzbot.Base.Table.{find, modify, find-modify_self}
use mathlib.Core.Path.{subst}
use marzbot.Runtime.{inbound_has_id}
use marzbot.Provisioning.Refund.{panel_id, client_of_subscription, subscription_has_id, plan_of}
use marzbot.Sync.{
  update, disabling, observed, activated, is_live, is_due, expired_at, seen_at, duration_of,
  write_subscription, write_usage, expire, expire_if, observe, reset_client_uuid,
  disable_client_in_xui, on_reply, sync_client, sync_subscription,
}

-- The panel's client raises errors of its own class alone: it wraps those of HTTP.
abbrev pub RaisesXui : Outside → Type 0
RaisesXui o =
    (s : Session) (c : Call) (e : Exn) → o.panel s c ≡ failure e → is_xui_client_error e ≡ true

-- The calls and the draws that have been made are all that has changed.
abbrev pub OnlyTalks : Session → Session → Type 0
OnlyTalks s t = t ≡ record s { drawn = t.drawn; calls = t.calls }

module _ (o : Outside) (server_id : Uuid) (wrapped : RaisesXui o) where
  update_talks :
      (client : XuiClientRecord) (inbound : XuiInboundRecord) (settings : XuiClient) (s : Session)
      → (t : Session) × (update o server_id client inbound settings s ≡ ok tt t) × OnlyTalks s t
  update_talks client inbound settings s =
      let call =
        Call.update_client server_id inbound.xui_inbound_remote_id
          (panel_id client.xui_client_remote_id client.client_uuid) settings in
      elim (Reply-cases (o.panel s call)) [
        | inl (a, e) ↦ (log call s, rw e refl, refl)
        | inr (x, e) ↦ (log call s, rw (e, wrapped s call x e) refl, refl)
      ]

  reset_talks :
      (r : Subscription) (client : XuiClientRecord) (inbound : Option XuiInboundRecord)
      (s : Session)
      → (t : Session) × (reset_client_uuid o server_id r client inbound s ≡ ok tt t) × OnlyTalks s t
  unfolding reset_client_uuid
  reset_talks r client none s = (s, refl, refl)
  reset_talks r client (some inbound) s =
      let drawn = record s { drawn = s.drawn + 1 } in
      let (t, e, h) =
        update_talks client inbound
          (disabling r client (o.uuid_str (o.uuid4 s.drawn))
            (codes "uuid_reset:" ++ o.uuid_str r.id))
          drawn in
      (t, e, h)

  disable_talks :
      (r : Subscription) (client : XuiClientRecord) (inbound : Option XuiInboundRecord)
      (s : Session)
      → (t : Session) × (disable_client_in_xui o server_id r client inbound s ≡ ok tt t)
        × OnlyTalks s t
  unfolding disable_client_in_xui
  disable_talks r client none s = (s, refl, refl)
  disable_talks r client (some inbound) s =
      update_talks client inbound
        (disabling r client client.client_uuid (codes "expired:" ++ o.uuid_str r.id)) s

  expire_if_expires :
      (now : Time) (r : Subscription) (client : XuiClientRecord) (s : Session)
      → (t : Session) × (expire_if o server_id true now r client s ≡ ok tt (expire now r t))
        × OnlyTalks s t
  unfolding expire_if
  expire_if_expires now r client s =
      let inbound = find (inbound_has_id client.inbound_id) s.inbounds in
      let (t, e, h) = reset_talks r client inbound s in
      let (t', e', h') = disable_talks r client inbound t in
      (
        t',
        rw (e, e') refl,
        h' ∙ ap (λ (x : Session). record x { drawn = t'.drawn; calls = t'.calls }) h,
      )

abbrev pub IsSameTime : Subscription → Subscription → Type 0
IsSameTime r r' =
    (r'.activated_at ≡ r.activated_at) × (r'.starts_at ≡ r.starts_at) × (r'.ends_at ≡ r.ends_at)

-- What a live subscription `r` becomes at `now` by the traffic: it expires just if the volume is
-- used up or the end has passed. A first use activates it and starts its time; otherwise its time is
-- as it was, and its status too unless it expires.
abbrev pub Follows : Time → ℕ → ℕ → Subscription → Subscription → Type 0
Follows now used days r r' =
    (r'.used_bytes ≡ used)
    × (r'.volume_bytes ≡ r.volume_bytes)
    × (r'.status ≡ expired
        → ((r.volume_bytes ≤ used) × (0 < r.volume_bytes))
          ⊎ ((t : Time) × (r'.ends_at ≡ some t) × (t < now)))
    × (r.volume_bytes ≤ used → 0 < r.volume_bytes → r'.status ≡ expired)
    × ((t : Time) → r'.ends_at ≡ some t → t < now → r'.status ≡ expired)
    × (r.status ≡ pending_activation
        → 0 < used
        → (r'.activated_at ≡ some now)
          × (r'.starts_at ≡ some now)
          × (r'.ends_at ≡ some (now + days * 86400))
          × ((r'.status ≡ active) ⊎ (r'.status ≡ expired)))
    × (r.status ≡ pending_activation
        → used ≡ 0
        → IsSameTime r r' × ((r'.status ≡ pending_activation) ⊎ (r'.status ≡ expired)))
    × (r.status ≡ active → IsSameTime r r' × ((r'.status ≡ active) ⊎ (r'.status ≡ expired)))

seen_at-due :
    (now : Time) (used : ℕ) (plan : Option Plan) (r : Subscription)
    → is_live r.status ≡ true
    → is_due now (seen_at now used plan r) ≡ true
    → Follows now used (duration_of plan) r (expired_at now (seen_at now used plan r))
unfolding seen_at observed activated is_due expired_at
seen_at-due now used plan r live due = ground arith

seen_at-not_due :
    (now : Time) (used : ℕ) (plan : Option Plan) (r : Subscription)
    → is_live r.status ≡ true
    → is_due now (seen_at now used plan r) ≡ false
    → Follows now used (duration_of plan) r (seen_at now used plan r)
unfolding seen_at observed activated is_due
seen_at-not_due now used plan r live due = ground arith

-- The row that is written is the one that is found.
pub find-write_subscription :
    (r r' found : Subscription) (s : Session)
    → r'.id ≡ r.id
    → find (subscription_has_id r.id) s.subscriptions ≡ some found
    → find (subscription_has_id r.id) (write_subscription r' s).subscriptions ≡ some r'
unfolding write_subscription
find-write_subscription r r' found s same e =
    let own : (r'.id == r.id) ≡ true = (==_iff r'.id r.id).1 same in
    subst
      (λ i.
        find (subscription_has_id r.id) (modify (subscription_has_id i) (λ old. r') s.subscriptions)
        ≡ some r')
      (sym same)
      (find-modify_self (subscription_has_id r.id) (λ old. r') s.subscriptions {a = found} e own)

pub find-expire :
    (now : Time) (r r' found : Subscription) (s : Session)
    → r'.id ≡ r.id
    → find (subscription_has_id r.id) s.subscriptions ≡ some found
    → find (subscription_has_id r.id) (expire now r' s).subscriptions ≡ some (expired_at now r')
unfolding expire expired_at
find-expire now r r' found s same e = find-write_subscription r (expired_at now r') found s same e

seen_at-id :
    (now : Time) (used : ℕ) (plan : Option Plan) (r : Subscription)
    → (seen_at now used plan r).id ≡ r.id
unfolding seen_at observed activated
seen_at-id now used plan r = ground arith

module _ (o : Outside) (server_id : Uuid) (wrapped : RaisesXui o) where
  expire_if_keeps :
      (now : Time) (r : Subscription) (client : XuiClientRecord) (s : Session)
      → expire_if o server_id false now r client s ≡ ok tt s
  unfolding expire_if
  expire_if_keeps now r client s = refl

  observe-Follows :
      (r found : Subscription) (client : XuiClientRecord) (used : ℕ) (s : Session)
      → find (subscription_has_id r.id) s.subscriptions ≡ some found
      → is_live r.status ≡ true
      → (t : Session) × (r' : Subscription) × (observe o server_id used r client s ≡ ok tt t)
        × (find (subscription_has_id r.id) t.subscriptions ≡ some r')
        × Follows (o.utcnow s) used (duration_of (plan_of r.plan_id s)) r r'
  unfolding observe write_usage
  observe-Follows r found client used s e live =
      let now = o.utcnow s in
      let plan = plan_of r.plan_id s in
      let seen = seen_at now used plan r in
      let t0 = write_usage r.id used (write_subscription seen s) in
      let id_same = seen_at-id now used plan r in
      let written = find-write_subscription r seen found s id_same e in
      elim (Bool-cases (is_due now seen)) [
        | inr due ↦ (
          t0,
          seen,
          rw due (expire_if_keeps now seen client t0),
          written,
          seen_at-not_due now used plan r live due,
        )
        | inl due ↦
            let (t, went, h) = expire_if_expires o server_id wrapped now seen client t0 in
            (
              expire now seen t,
              expired_at now seen,
              rw (due, went) refl,
              find-expire now r seen seen t id_same (
                  ap (λ (x : Session). find (subscription_has_id r.id) x.subscriptions) h
                  ∙ written),
              seen_at-due now used plan r live due,
            )
      ]

  -- If the panel's client raises errors of its own class alone, a live subscription whose traffic the
  -- panel tells is synchronised to the end, and its row follows the traffic: it expires just if its
  -- volume is used up or its end has passed; a first use makes it active, unless it expires at once,
  -- and starts its time now for the days of the plan; otherwise its time is as it was, and its
  -- status too unless it expires.
  pub sync_subscription-Follows :
      (r found : Subscription) (client : XuiClientRecord) (used : ℕ) (s : Session)
      → find (subscription_has_id r.id) s.subscriptions ≡ some found
      → find (client_of_subscription r.id) s.xui_clients ≡ some client
      → is_live r.status ≡ true
      → o.panel_traffic s (Call.get_client_traffic server_id client.email) ≡ answer used
      → let asked = log (Call.get_client_traffic server_id client.email) s in
        (t : Session) × (r' : Subscription) × (sync_subscription o server_id r s ≡ ok tt t)
        × (find (subscription_has_id r.id) t.subscriptions ≡ some r')
        × Follows (o.utcnow asked) used (duration_of (plan_of r.plan_id asked)) r r'
  unfolding sync_subscription sync_client on_reply
  sync_subscription-Follows r found client used s e has live told =
      let (t, r', went, here, follows) =
        observe-Follows r found client used (log (Call.get_client_traffic server_id client.email) s)
          e live in
      (t, r', rw (has, told) went, here, follows)
