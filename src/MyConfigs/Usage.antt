-- ===== src/MyConfigs/Usage.antt =====
-- apps/bot/handlers/user/my_configs.py: the two views of a configuration that read its usage from the
-- panel, and write what it tells. An error of the reading is only shown. A code is drawn of the
-- direct link of a client whose inbound and server are there; `has_qr` says whether the link and its
-- image could be made. The removal of the old message, which raises nothing, is left out.
use marzbot.Base.{ℕ, ◌≡◌, ◌≢◌, refl, Bool, true, false, Option, none, some, arith}
use marzbot.Base.Table.{find, find-modify_apart}
use marzbot.Models.{Uuid, Time, User, Subscription, Plan, XuiClientRecord, XuiServerRecord}
use marzbot.Session.{
  Session, Action, Outside, Reply, answer, failure, Call, Run, ok, err, pure, gets, catch, handle,
  proceed, replied, call_telegram, log, final, ◌>>=◌, ◌>>◌,
}
use marzbot.Provisioning.Refund.{belongs_to, client_of_subscription, plan_of, subscription_has_id}
use marzbot.Sync.{observed, activated, duration_of, write_subscription, write_usage}
use marzbot.Sync.Expiry.{find-write_subscription}
use marzbot.Sync.Jobs.{Usage, server_of, record_usage, fetch_usage, get_realtime_usage}
use marzbot.MyConfigs.{Place, owned, place_of}
use marzbot.MyConfigs.Sparing.{Spares, Spares-refl, Spares-trans}

module _ (o : Outside) where
  -- The `try` block of both views.
  unfoldable pub refresh : Subscription → Action (Unit {0})
  refresh r = catch (get_realtime_usage o r >> pure tt) (λ e. pure tt)

  unfoldable pub refresh_owned : Option (User × Subscription) → Action (Unit {0})
  refresh_owned none = pure tt
  refresh_owned (some (u, r)) = refresh r

  unfoldable pub refresh_usage_handler : ℕ → Uuid → Action (Unit {0})
  refresh_usage_handler telegram_id i = do
    call_telegram o Call.answer_callback
    found ← gets (owned telegram_id i)
    refresh_owned found

  -- `bot.send_photo`, which may raise.
  unfoldable pub show_code : ℕ → Option Place → Bool → Action (Unit {0})
  show_code telegram_id none image = pure tt
  show_code telegram_id (some place) false = pure tt
  show_code telegram_id (some place) true = call_telegram o (Call.send_photo telegram_id)

  unfoldable pub view_found : ℕ → Subscription → Action (Unit {0})
  unfolding refresh
  view_found telegram_id r = do
    refresh r
    place ← gets (place_of r.id)
    image ← gets o.has_qr
    show_code telegram_id place image

  unfoldable pub view_owned : ℕ → Option (User × Subscription) → Action (Unit {0})
  view_owned telegram_id none = pure tt
  view_owned telegram_id (some (u, r)) = view_found telegram_id r

  unfoldable pub my_config_detail_handler : ℕ → Uuid → Action (Unit {0})
  my_config_detail_handler telegram_id i = do
    call_telegram o Call.answer_callback
    found ← gets (owned telegram_id i)
    view_owned telegram_id found

-- A write to the row found by its id spares those who do not own it.
write_subscription-Spares :
    (x : Uuid) (r r' found : Subscription) (s : Session)
    → r'.id ≡ r.id
    → r'.user_id ≡ r.user_id
    → found.user_id ≡ r.user_id
    → find (subscription_has_id r.id) s.subscriptions ≡ some found
    → x ≢ r.user_id
    → Spares x s (write_subscription r' s)
unfolding write_subscription
write_subscription-Spares x r r' found s same own theirs here ne = record {
  subscriptions = λ j.
      find-modify_apart (subscription_has_id r'.id) (belongs_to j x) (λ old. r') s.subscriptions
        {a = found} (rw same here) (ground arith) (ground arith);
  wallet = refl;
}

written_kept :
    (now later : Time) (days used : ℕ) (r : Subscription)
    → ((activated later days (observed now used r)).id ≡ r.id)
      × ((activated later days (observed now used r)).user_id ≡ r.user_id)
unfolding activated observed
written_kept now later days used r = ground arith

noted_kept :
    (now : Time) (used : ℕ) (r : Subscription)
    → ((observed now used r).id ≡ r.id) × ((observed now used r).user_id ≡ r.user_id)
unfolding observed
noted_kept now used r = (refl, refl)

write_usage-Spares :
    (x i : Uuid) (used : ℕ) (s t : Session) → Spares x s t → Spares x s (write_usage i used t)
unfolding write_usage
write_usage-Spares x i used s t h = record { subscriptions = h.subscriptions; wallet = h.wallet }

find-write_usage :
    (r r' : Subscription) (used : ℕ) (s : Session)
    → r'.id ≡ r.id
    → find (subscription_has_id r.id) s.subscriptions ≡ some r
    → find
        (subscription_has_id r.id)
        (write_usage r.id used (write_subscription r' s)).subscriptions
      ≡ some r'
unfolding write_usage
find-write_usage r r' used s same here = find-write_subscription r r' r s same here

module _ (o : Outside) (x : Uuid) where
  record_usage-Spares :
      (used : ℕ) (plan : Option Plan) (r : Subscription) (s : Session)
      → find (subscription_has_id r.id) s.subscriptions ≡ some r
      → x ≢ r.user_id
      → Spares x s (final (record_usage o used plan r s))
  unfolding record_usage
  record_usage-Spares used plan r s here ne =
      let seen = observed (o.utcnow s) used r in
      let t = write_usage r.id used (write_subscription seen s) in
      let row = activated (o.utcnow t) (duration_of plan) seen in
      let (id, user) = written_kept (o.utcnow s) (o.utcnow t) (duration_of plan) used r in
      let (id', user') = noted_kept (o.utcnow s) used r in
      Spares-trans x s t (write_subscription row t)
        (write_usage-Spares x r.id used s (write_subscription seen s)
          (write_subscription-Spares x r seen r s id' user' refl here ne))
        (write_subscription-Spares x r row seen t id user user'
          (find-write_usage r seen used s id' here) ne)

  fetch_usage-Spares :
      (r : Subscription) (client : Option XuiClientRecord) (server : Option XuiServerRecord)
      (s : Session)
      → find (subscription_has_id r.id) s.subscriptions ≡ some r
      → x ≢ r.user_id
      → Spares x s (final (fetch_usage o r client server s))
  unfolding fetch_usage
  fetch_usage-Spares r none server s here ne = Spares-refl x s
  fetch_usage-Spares r (some c) none s here ne = Spares-refl x s
  fetch_usage-Spares r (some c) (some v) s here ne =
      told (o.panel_traffic s call) (log call s)
        (record { subscriptions = λ j. refl; wallet = refl }) here
    where
      call : Call
      call = Call.get_client_traffic v.id c.email

      finished :
          (t : Session) (run : Run Usage)
          → Spares x t (final run)
          → Spares x t (final (proceed run (λ usage. pure (some usage))))
      finished t (ok a t') h = h
      finished t (err e t') h = h

      told :
          (reply : Reply ℕ) (t : Session)
          → Spares x s t
          → find (subscription_has_id r.id) t.subscriptions ≡ some r
          → Spares x s (
              final (
                proceed (replied reply t) (λ used.
                  record_usage o used (plan_of r.plan_id s) r >>= (λ usage. pure (some usage)))))
      told (answer used) t h there =
          let run = record_usage o used (plan_of r.plan_id s) r t in
          Spares-trans x s t (final (proceed run (λ usage. pure (some usage)))) h
            (finished t run (record_usage-Spares used (plan_of r.plan_id s) r t there ne))
      told (failure e) t h there = h

  -- What the panel tells of a subscription is written to its own rows.
  pub refresh-Spares :
      (r : Subscription) (s : Session)
      → find (subscription_has_id r.id) s.subscriptions ≡ some r
      → x ≢ r.user_id
      → Spares x s (final (refresh o r s))
  unfolding refresh get_realtime_usage
  refresh-Spares r s here ne =
      let client = find (client_of_subscription r.id) s.xui_clients in
      caught (fetch_usage o r client (server_of client s) s)
        (fetch_usage-Spares r client (server_of client s) s here ne)
    where
      caught :
          (run : Run (Option Usage))
          → Spares x s (final run)
          → Spares x s (final (handle (proceed run (λ u. pure tt)) (λ e. pure tt)))
      caught (ok a t) h = h
      caught (err e t) h = h

  show_code-Spares :
      (telegram_id : ℕ) (t : Session) (place : Option Place) (image : Bool)
      → Spares x t (final (show_code o telegram_id place image t))
  unfolding show_code
  show_code-Spares telegram_id t none image = Spares-refl x t
  show_code-Spares telegram_id t (some place) false = Spares-refl x t
  show_code-Spares telegram_id t (some place) true =
      sent (o.telegram t (Call.send_photo telegram_id))
    where
      sent :
          (reply : Reply (Unit {0}))
          → Spares x t (final (replied reply (log (Call.send_photo telegram_id) t)))
      sent (answer a) = record { subscriptions = λ j. refl; wallet = refl }
      sent (failure e) = record { subscriptions = λ j. refl; wallet = refl }

  pub view_found-Spares :
      (telegram_id : ℕ) (r : Subscription) (s : Session)
      → find (subscription_has_id r.id) s.subscriptions ≡ some r
      → x ≢ r.user_id
      → Spares x s (final (view_found o telegram_id r s))
  unfolding view_found
  view_found-Spares telegram_id r s here ne = followed (refresh o r s) (refresh-Spares r s here ne)
    where
      followed :
          (run : Run (Unit {0}))
          → Spares x s (final run)
          → Spares x s (
              final (
                proceed run (λ a.
                  gets (place_of r.id)
                  >>= (λ place. gets o.has_qr >>= show_code o telegram_id place))))
      followed (ok a t) h =
          Spares-trans x s t (final (show_code o telegram_id (place_of r.id t) (o.has_qr t) t)) h
            (show_code-Spares telegram_id t (place_of r.id t) (o.has_qr t))
      followed (err e t) h = h
