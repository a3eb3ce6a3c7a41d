-- ===== src/MyConfigs/Links.antt =====
-- The new link and the switch of a configuration (apps/bot/handlers/user/my_configs.py).
use marzbot.Base.{ℕ, ◌+◌, ◌≡◌, refl, ap, ◌∙◌, true, some, ◌∷◌, take}
use marzbot.Base.Table.{find, find-modify_self, find-passes}
use marzbot.Models.{
  Uuid, Str, User, Subscription, XuiClientRecord, XuiInboundRecord, XuiServerRecord,
}
use marzbot.Session.{
  Session, Outside, Reply, answer, failure, Call, Run, ok, log, call_telegram, proceed, gets, ◌>>=◌,
}
use marzbot.Runtime.{build_sub_link, ensure_inbound_server_loaded}
use marzbot.Provisioning.Refund.{belongs_to, client_of_subscription, expiry_ms, panel_id}
use marzbot.Sync.{is_live}
use marzbot.MyConfigs.Rows.{place_of_rows, owned_rows}
use marzbot.MyConfigs.{
  is_usable, owned, place_of, settings_of, relinked_client, relinked, change_client,
  change_subscription, relink, reset_at, reset_placed, reset_owned, reset_uuid_handler,
}

module _ (o : Outside) (telegram_id : ℕ) (i : Uuid) (before s : Session)
    (clicked : call_telegram o Call.answer_callback before ≡ ok tt s) (u : User) (r : Subscription)
    (c : XuiClientRecord) (n : XuiInboundRecord) (v : XuiServerRecord)
    (mine : owned telegram_id i s ≡ some (u, r)) (live : is_live r.status ≡ true)
    (placed : place_of r.id s ≡ some (c, n, v)) (usable : is_usable v ≡ true)
    (credentials : v.has_credentials ≡ true) where
  abbrev drawn_twice : Session
  drawn_twice = record s { drawn = s.drawn + 1 + 1 }

  abbrev new_uuid : Str
  new_uuid = o.uuid_str (o.uuid4 s.drawn)

  abbrev new_sub_id : Str
  new_sub_id = take 16 (o.uuid_hex (o.uuid4 (s.drawn + 1)))

  abbrev new_link : Str
  new_link = build_sub_link o v new_sub_id

  -- The update of the new link: the old id names the client, which gets the new one.
  abbrev pub relink_call : Call
  relink_call =
      Call.update_client v.id n.xui_inbound_remote_id
        (panel_id c.xui_client_remote_id c.client_uuid)
        (record {
          id = new_uuid;
          uuid = new_uuid;
          email = c.email;
          limit_ip = 1;
          total_gb = r.volume_bytes;
          expiry_time = expiry_ms r.ends_at;
          enable = c.is_active;
          sub_id = new_sub_id;
          comment = c.username;
        })

  -- After the panel's reply: both rows carry the new link and id, or none has changed.
  abbrev pub Relinked : Reply (Unit {0}) → Session → Type 0
  Relinked (answer x) t =
      (find (client_of_subscription r.id) t.xui_clients
        ≡ some (record c {
          client_uuid = new_uuid;
          xui_client_remote_id = some new_uuid;
          sub_link = some new_link;
        }))
      × (find (belongs_to r.id r.user_id) t.subscriptions
          ≡ some (record r { sub_link = some new_link }))
      × (t.wallets ≡ s.wallets)
  Relinked (failure e) t = t ≡ record s { drawn = t.drawn; calls = t.calls }

  loaded : (t : Session) → t.servers ≡ s.servers → ensure_inbound_server_loaded n t ≡ ok v t
  unfolding ensure_inbound_server_loaded
  loaded t same =
      let (a, b, found) = place_of_rows r.id s c n v placed in rw (same, found, credentials) refl

  resets : reset_owned o (owned telegram_id i s) s ≡ reset_at o true r (c, n, v) s
  unfolding reset_owned reset_placed
  resets = rw (mine, placed, live, usable) refl

  answers : reset_uuid_handler o telegram_id i before ≡ reset_owned o (owned telegram_id i s) s
  unfolding reset_uuid_handler
  answers =
      ap (λ (run : Run (Unit {0})). proceed run (λ x. gets (owned telegram_id i) >>= reset_owned o))
        clicked

  relinks :
      (reply : Reply (Unit {0}))
      → o.panel drawn_twice relink_call ≡ reply
      → (t : Session) × (reset_at o true r (c, n, v) s ≡ ok tt t)
        × (t.calls ≡ relink_call ∷ s.calls)
        × Relinked reply t
  unfolding reset_at relink settings_of change_client change_subscription relinked_client relinked
  relinks (answer x) e =
      let (found, inbound, server) = place_of_rows r.id s c n v placed in
      let (a, b, here, d) = owned_rows telegram_id i s u r mine in
      let asked = log relink_call drawn_twice in
      (
        change_subscription r (relinked new_link)
            (change_client r.id (relinked_client new_uuid new_link) asked),
        rw (loaded drawn_twice refl, e) refl,
        refl,
        (
          find-modify_self (client_of_subscription r.id) (relinked_client new_uuid new_link)
              s.xui_clients found (find-passes (client_of_subscription r.id) s.xui_clients found),
          find-modify_self (belongs_to r.id r.user_id) (relinked new_link) s.subscriptions here
              (find-passes (belongs_to r.id r.user_id) s.subscriptions here),
          refl,
        ),
      )
  relinks (failure x) e =
      (log relink_call drawn_twice, rw (loaded drawn_twice refl, e) refl, refl, refl)

  -- The new link of a live subscription of the user, on a usable server: the panel is asked to give
  -- the client named by its old id a fresh one, with the bytes and the end of the subscription. If the panel takes it, the client's row has the
  -- fresh id and both rows the link of a fresh `subId`; if it fails, no row has changed. If Telegram
  -- answers the click, which leaves the session `s`, the handler ends normally.
  pub reset_uuid_handler-Relinked :
      (reply : Reply (Unit {0}))
      → o.panel drawn_twice relink_call ≡ reply
      → (t : Session) × (reset_uuid_handler o telegram_id i before ≡ ok tt t)
        × (t.calls ≡ relink_call ∷ s.calls)
        × Relinked reply t
  reset_uuid_handler-Relinked reply e =
      let (t, went, calls, rows) = relinks reply e in (t, answers ∙ (resets ∙ went), calls, rows)
