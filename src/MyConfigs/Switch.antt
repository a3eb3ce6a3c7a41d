-- ===== src/MyConfigs/Switch.antt =====
-- The switch of a configuration (apps/bot/handlers/user/my_configs.py).
use marzbot.Base.{ℕ, ◌≡◌, refl, ap, ◌∙◌, Bool, true, not, some, List, ◌∷◌, arith}
use marzbot.Base.Table.{find, modify, find-modify_self, find-passes, modify-modify, modify-id}
use marzbot.Models.{Uuid, User, Subscription, XuiClientRecord, XuiInboundRecord, XuiServerRecord}
use marzbot.Session.{Session, Outside, Reply, answer, Call, ok, log, proceed, replied, gets, ◌>>=◌}
use marzbot.Runtime.{ensure_inbound_server_loaded, existing_sub_id}
use marzbot.Provisioning.Refund.{client_of_subscription, panel_id}
use marzbot.Sync.{is_live}
use marzbot.MyConfigs.{
  is_usable, owned, place_of, settings_of, change_client, switch, toggle_placed, toggle_owned,
  toggle_enable_handler,
}
use marzbot.MyConfigs.Rows.{place_of_rows, owned_same}

abbrev pub with_active : Bool → XuiClientRecord → XuiClientRecord
with_active b c = record c { is_active = b }

-- What the panel is told.
abbrev pub switch_call : Subscription → XuiClientRecord → XuiInboundRecord → XuiServerRecord → Call
switch_call r c n v =
    Call.update_client v.id n.xui_inbound_remote_id (panel_id c.xui_client_remote_id c.client_uuid)
      (settings_of r c (panel_id c.xui_client_remote_id c.client_uuid) c.client_uuid
        (not c.is_active) (existing_sub_id r.sub_link c.sub_link))

-- The session after a switch that the panel took.
abbrev pub switched :
    Subscription → XuiClientRecord → XuiInboundRecord → XuiServerRecord → Session → Session
switched r c n v s =
    change_client r.id (with_active (not c.is_active)) (log (switch_call r c n v) s)

module _ (o : Outside) (telegram_id : ℕ) (i : Uuid) (u : User) (r : Subscription)
    (n : XuiInboundRecord) (v : XuiServerRecord) (live : is_live r.status ≡ true)
    (usable : is_usable v ≡ true) (credentials : v.has_credentials ≡ true)
    (takes : (t : Session) (call : Call) → o.panel t call ≡ answer tt)
    (answers : (t : Session) → o.telegram t Call.answer_callback ≡ answer tt) where
  toggle_once :
      (s : Session) (c : XuiClientRecord)
      → owned telegram_id i s ≡ some (u, r)
      → place_of r.id s ≡ some (c, n, v)
      → toggle_owned o (owned telegram_id i s) s ≡ ok tt (switched r c n v s)
  unfolding toggle_owned toggle_placed switch ensure_inbound_server_loaded
  toggle_once s c mine placed =
      let (a, b, found) = place_of_rows r.id s c n v placed in
      rw (mine, placed, live, usable, found, credentials, takes s (switch_call r c n v)) refl

  clicked :
      (s : Session)
      → toggle_enable_handler o telegram_id i s
        ≡ toggle_owned o
            (owned telegram_id i (log Call.answer_callback s))
            (log Call.answer_callback s)
  unfolding toggle_enable_handler
  clicked s =
      ap
        (λ (reply : Reply (Unit {0})).
          proceed (replied reply (log Call.answer_callback s))
            (λ x. gets (owned telegram_id i) >>= toggle_owned o))
        (answers s)

  -- The answer to the click is no part of a row.
  place_of-log :
      (s : Session) (c : XuiClientRecord)
      → place_of r.id s ≡ some (c, n, v)
      → place_of r.id (log Call.answer_callback s) ≡ some (c, n, v)
  unfolding place_of
  place_of-log s c placed =
      let (found, inbound, server) = place_of_rows r.id s c n v placed in
      rw (found, inbound, server) refl

  toggle_clicked :
      (s : Session) (c : XuiClientRecord)
      → owned telegram_id i s ≡ some (u, r)
      → place_of r.id s ≡ some (c, n, v)
      → toggle_enable_handler o telegram_id i s
        ≡ ok tt (switched r c n v (log Call.answer_callback s))
  toggle_clicked s c mine placed =
      let before = log Call.answer_callback s in
      clicked s
      ∙ toggle_once before c (owned_same telegram_id i s before refl refl ∙ mine)
          (place_of-log s c placed)

  place_of-switched :
      (s : Session) (c : XuiClientRecord)
      → place_of r.id s ≡ some (c, n, v)
      → place_of r.id (switched r c n v s) ≡ some (with_active (not c.is_active) c, n, v)
  unfolding place_of change_client
  place_of-switched s c placed =
      let (found, inbound, server) = place_of_rows r.id s c n v placed in
      let again =
        find-modify_self (client_of_subscription r.id) (with_active (not c.is_active)) s.xui_clients
          found (find-passes (client_of_subscription r.id) s.xui_clients found) in
      rw (again, inbound, server) refl

  back_again :
      (s : Session) (c : XuiClientRecord)
      → find (client_of_subscription r.id) s.xui_clients ≡ some c
      → modify
          (client_of_subscription r.id)
          (with_active (not (not c.is_active)))
          (modify (client_of_subscription r.id) (with_active (not c.is_active)) s.xui_clients)
        ≡ s.xui_clients
  back_again s c found =
      modify-modify (client_of_subscription r.id) (with_active (not c.is_active))
        (with_active (not (not c.is_active))) s.xui_clients found
        (find-passes (client_of_subscription r.id) s.xui_clients found)
      ∙ modify-id (client_of_subscription r.id)
          (λ x. with_active (not (not c.is_active)) (with_active (not c.is_active) x)) s.xui_clients
          found (same c.is_active)
    where
      same : (b : Bool) → record c { is_active = not (not c.is_active) } ≡ c
      same b = ground arith

  -- On a panel that takes every update, if Telegram answers the clicks, the switch of a live subscription of the user on a usable
  -- server turns the client over, and a second switch leaves every row as it was at first.
  pub toggle_enable_handler_twice :
      (s : Session) (c : XuiClientRecord)
      → owned telegram_id i s ≡ some (u, r)
      → place_of r.id s ≡ some (c, n, v)
      → (t : Session) × (t' : Session) × (toggle_enable_handler o telegram_id i s ≡ ok tt t)
        × (find (client_of_subscription r.id) t.xui_clients
            ≡ some (record c { is_active = not c.is_active }))
        × (toggle_enable_handler o telegram_id i t ≡ ok tt t')
        × (t' ≡ record s { calls = t'.calls })
  unfolding change_client
  toggle_enable_handler_twice s c mine placed =
      let (found, inbound, server) = place_of_rows r.id s c n v placed in
      let c' = with_active (not c.is_active) c in
      let t = switched r c n v (log Call.answer_callback s) in
      (
        t,
        switched r c' n v (log Call.answer_callback t),
        toggle_clicked s c mine placed,
        find-modify_self (client_of_subscription r.id) (with_active (not c.is_active)) s.xui_clients
            found (find-passes (client_of_subscription r.id) s.xui_clients found),
        toggle_clicked t c' (owned_same telegram_id i s t refl refl ∙ mine)
            (place_of-switched (log Call.answer_callback s) c (place_of-log s c placed)),
        ap
            (λ (l : List XuiClientRecord). record s {
              xui_clients = l;
              calls =
                  switch_call r c' n v
                  ∷ Call.answer_callback
                  ∷ switch_call r c n v
                  ∷ Call.answer_callback
                  ∷ s.calls;
            })
            (back_again s c found),
      )
