-- ===== src/Servers.antt =====
-- apps/bot/handlers/admin/servers.py: the servers that an administrator synchronises and changes. The
-- lists, the pages of a server, and the dialogues that add a server or change its credentials are
-- left out, as is the audit log's payload. An inbound is told from the others of its server by the
-- panel's id of it.
pub mod Mirrored
pub mod Archived
pub mod Settings
pub mod Saved
use marzbot.Base.{
  ℕ, ◌+◌, Bool, true, false, not, ◌&&◌, Option, none, some, List, [], ◌∷◌, map, ◌==◌, ltb, is_some,
  if◌then◌else◌,
}
use marzbot.Base.Int.{ℤ, pos, negsuc}
use marzbot.Base.Text.{strip}
use marzbot.Base.Table.{find, find_last, modify, select, count, without}
use marzbot.Models.{Uuid, Str, User, XuiClientRecord, XuiServerRecord, XuiInboundRecord}
use marzbot.Session.{
  Session, Action, Exn, Outside, RemoteInbound, Call, Text, FormState, Form, pure, draw, gets, log,
  replied, or_raise, raise_if, modify_session, catch, catch_if, call_telegram, clear_form,
  update_form, log_action, ◌>>=◌, ◌>>◌,
}
use marzbot.Runtime.{inbound_has_id, server_has_id}
use marzbot.Plans.{is_bad_request}

abbrev pub is_on : Uuid → XuiInboundRecord → Bool
is_on i r = r.server_id == i

abbrev pub remote_has_id : ℕ → RemoteInbound → Bool
remote_has_id n m = m.id == n

-- `remote_by_id`, where the latter of two with the same id stands.
abbrev pub remote_by_id : List RemoteInbound → ℕ → Option RemoteInbound
remote_by_id ms n = find_last (remote_has_id n) ms

abbrev pub with_remote : RemoteInbound → XuiInboundRecord → XuiInboundRecord
with_remote m r = record r {
  remark = m.remark;
  protocol = m.protocol;
  port = m.port;
  is_active = true;
}

abbrev pub disabled : XuiInboundRecord → XuiInboundRecord
disabled r = record r { is_active = false }

abbrev pub updated_by : Option RemoteInbound → XuiInboundRecord → XuiInboundRecord
updated_by none r = disabled r
updated_by (some m) r = with_remote m r

-- `remote.id in existing_by_remote_id`
abbrev pub stands_for : Uuid → ℕ → XuiInboundRecord → Bool
stands_for i n r = is_on i r && r.xui_inbound_remote_id == n

-- `existing_by_remote_id` keeps one row for a remote id: the last one loaded, here the latest.
abbrev pub is_kept : Option XuiInboundRecord → XuiInboundRecord → Bool
is_kept none r = false
is_kept (some x) r = x.id == r.id

-- The first loop, for one of the rows.
unfoldable pub synced :
    Uuid → List RemoteInbound → List XuiInboundRecord → XuiInboundRecord → XuiInboundRecord
synced i ms rs r =
    if is_on i r && is_kept (find (stands_for i r.xui_inbound_remote_id) rs) r
    then updated_by (remote_by_id ms r.xui_inbound_remote_id) r
    else r

abbrev pub is_known : Uuid → List XuiInboundRecord → RemoteInbound → Bool
is_known i rs m = is_some (find (stands_for i m.id) rs)

abbrev pub is_new : Uuid → List XuiInboundRecord → RemoteInbound → Bool
is_new i rs m = not (is_known i rs m)

unfoldable pub new_inbound : Uuid → Uuid → RemoteInbound → XuiInboundRecord
new_inbound id i m = record {
  id = id;
  server_id = i;
  xui_inbound_remote_id = m.id;
  is_active = true;
  remark = m.remark;
  protocol = m.protocol;
  port = m.port;
}

-- The inbounds of a server that is switched off.
abbrev pub off_on : Uuid → XuiInboundRecord → XuiInboundRecord
off_on i r = if is_on i r then disabled r else r

abbrev pub set_server : Uuid → (XuiServerRecord → XuiServerRecord) → Session → Session
set_server i f s = record s { servers = modify (server_has_id i) f s.servers }

abbrev pub flipped : XuiServerRecord → XuiServerRecord
flipped v = record v { is_active = not v.is_active; is_deleted = false }

abbrev pub archived : XuiServerRecord → XuiServerRecord
archived v = record v { is_active = false; is_deleted = true }

unfoldable pub disable_inbounds : Uuid → Session → Session
disable_inbounds i s = record s { inbounds = map (off_on i) s.inbounds }

-- Whether the client's inbound is on the server.
abbrev pub client_is_on : Uuid → Session → XuiClientRecord → Bool
client_is_on i s c = elim (find (inbound_has_id c.inbound_id) s.inbounds) [
  | none ↦ false
  | some r ↦ is_on i r
]

-- `active_client_count`
abbrev pub active_clients : Uuid → Session → ℕ
active_clients i s = count (λ c. c.is_active && client_is_on i s c) s.xui_clients

-- The deletion at the flush: the inbounds, which no cascade takes along, would lose their server.
unfoldable pub remove_server : Uuid → Action (Unit {0})
remove_server i = do
  referred ← gets (λ s. is_some (find (is_on i) s.inbounds))
  raise_if referred Exn.integrity_error
  modify_session (λ s. record s { servers = without (server_has_id i) s.servers })

unfoldable pub delete_by : Bool → Uuid → Action (Unit {0})
unfolding disable_inbounds remove_server
delete_by true i = modify_session (set_server i archived) >> modify_session (disable_inbounds i)
delete_by false i = remove_server i

module _ (o : Outside) where
  -- `_fetch_remote_inbounds`
  abbrev pub fetch_remote_inbounds : Str → Action (List RemoteInbound)
  fetch_remote_inbounds base_url s =
      replied (o.remote_inbounds s (Call.get_inbounds base_url))
        (log (Call.get_inbounds base_url) s)

  -- The second loop.
  unfoldable pub add_inbounds : Uuid → List RemoteInbound → Action (Unit {0})
  unfolding new_inbound
  add_inbounds i [] = pure tt
  add_inbounds i (m ∷ ms) = do
    id ← draw o
    modify_session (λ s. record s { inbounds = new_inbound id i m ∷ s.inbounds })
    add_inbounds i ms

  unfoldable pub sync_remote_inbounds : Uuid → List RemoteInbound → Action (Unit {0})
  unfolding synced add_inbounds
  sync_remote_inbounds i ms = do
    fresh ← gets (λ s. select (is_new i s.inbounds) ms)
    modify_session (λ s. record s { inbounds = map (synced i ms s.inbounds) s.inbounds })
    add_inbounds i fresh

  abbrev pub fetched : Str → Action (Option (List RemoteInbound))
  fetched base_url = catch (do ms ← fetch_remote_inbounds base_url; pure (some ms)) (λ e. pure none)

  -- `list_servers`
  unfoldable pub list_servers : Action (Unit {0})
  list_servers = do
    call_telegram o Call.answer_callback
    catch_if is_bad_request (call_telegram o (Call.edit_text Text.done)) (λ e. pure tt)

module _ (o : Outside) (admin : User) where
  abbrev pub tell : Text → Action (Unit {0})
  tell text = call_telegram o (Call.send_message admin.telegram_id text)

  -- Whatever the panel raises, the handler only shows it.
  unfoldable pub sync_from : XuiServerRecord → Option (List RemoteInbound) → Action (Unit {0})
  unfolding sync_remote_inbounds
  sync_from v none = pure tt
  sync_from v (some ms) = do
    sync_remote_inbounds o v.id ms
    log_action admin.id "sync_inbounds" "server" v.id

  unfoldable pub sync_found : Option XuiServerRecord → Action (Unit {0})
  unfolding sync_from
  sync_found none = pure tt
  sync_found (some v) = elim v.has_credentials [
    | false ↦ pure tt
    | true ↦ do ms ← fetched o v.base_url; sync_from v ms
  ]

  unfoldable pub sync_server_inbounds : Uuid → Action (Unit {0})
  unfolding sync_found
  sync_server_inbounds i = do
    call_telegram o Call.answer_callback
    v ← gets (λ s. find (server_has_id i) s.servers)
    sync_found v

  unfoldable pub toggle_found : Option XuiServerRecord → Action (Unit {0})
  unfolding disable_inbounds list_servers
  toggle_found none = pure tt
  toggle_found (some v) = do
    modify_session (set_server v.id flipped)
    (if v.is_active then modify_session (disable_inbounds v.id) else pure tt)
    log_action admin.id "toggle_server" "server" v.id
    list_servers o

  unfoldable pub toggle_server : Uuid → Action (Unit {0})
  unfolding toggle_found
  toggle_server i = do
    call_telegram o Call.answer_callback
    v ← gets (λ s. find (server_has_id i) s.servers)
    toggle_found v

  unfoldable pub delete_found : Option XuiServerRecord → Action (Unit {0})
  unfolding delete_by list_servers
  delete_found none = pure tt
  delete_found (some v) = do
    in_use ← gets (λ s. ltb 0 (active_clients v.id s))
    delete_by in_use v.id
    log_action admin.id "delete_server" "server" v.id
    call_telegram o Call.answer_callback
    list_servers o

  unfoldable pub delete_server : Uuid → Action (Unit {0})
  unfolding delete_found
  delete_server i = do
    call_telegram o Call.answer_callback
    v ← gets (λ s. find (server_has_id i) s.servers)
    delete_found v
