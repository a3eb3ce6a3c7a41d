-- ===== src/Sync/Jobs.antt =====
-- apps/worker/jobs/subscriptions.py: `sync_all_subscription_states`, which groups the live
-- subscriptions by server, and `get_realtime_usage`.
use marzbot.Base.{ℕ, ◌-◌, Bool, Option, none, some, List, [], ◌∷◌, ◌++◌, ◌==◌, if◌then◌else◌}
use marzbot.Base.Table.{find, select}
use marzbot.Models.{Uuid, Subscription, XuiClientRecord, XuiServerRecord, XuiInboundRecord, Plan}
use marzbot.Session.{
  Session, Action, Outside, Call, pure, gets, catch_if, is_xui_client_error, call_panel_traffic,
  modify_session, managed, ◌>>=◌, ◌>>◌,
}
use marzbot.Runtime.{inbound_has_id, server_has_id}
use marzbot.Provisioning.Refund.{client_of_subscription, plan_of}
use marzbot.Sync.{
  activated, duration_of, is_live, observed, sync_xui_usage_and_status, write_subscription,
  write_usage,
}

-- The server of a client, if the inbound and the server's credentials are there.
abbrev pub with_credentials : Option XuiServerRecord → Option XuiServerRecord
with_credentials none = none
with_credentials (some r) = if r.has_credentials then some r else none

abbrev pub server_of_inbound : Option XuiInboundRecord → Session → Option XuiServerRecord
server_of_inbound none s = none
server_of_inbound (some i) s = with_credentials (find (server_has_id i.server_id) s.servers)

abbrev pub server_of : Option XuiClientRecord → Session → Option XuiServerRecord
server_of none s = none
server_of (some c) s = server_of_inbound (find (inbound_has_id c.inbound_id) s.inbounds) s

-- The id of the server that a subscription is synchronised with: its server, if that is active.
abbrev pub active_id : Option XuiServerRecord → Option Uuid
active_id none = none
active_id (some r) = if r.is_active then some r.id else none

unfoldable pub target : Session → Subscription → Option Uuid
target s r = active_id (server_of (find (client_of_subscription r.id) s.xui_clients) s)

-- `grouped_by_server.setdefault(str(server.id), []).append(subscription)`
abbrev pub append_to :
    Uuid → Subscription → List (Uuid × List Subscription) → List (Uuid × List Subscription)
append_to i r [] = (i, r ∷ []) ∷ []
append_to i r ((j, rs) ∷ groups) =
    if j == i then (j, rs ++ (r ∷ [])) ∷ groups else (j, rs) ∷ append_to i r groups

abbrev pub group_one :
    Option Uuid → Subscription → List (Uuid × List Subscription) → List (Uuid × List Subscription)
group_one none r groups = groups
group_one (some i) r groups = append_to i r groups

unfoldable pub group_by_server :
    Session → List Subscription → List (Uuid × List Subscription) → List (Uuid × List Subscription)
group_by_server s [] groups = groups
group_by_server s (r ∷ rs) groups = group_by_server s rs (group_one (target s r) r groups)

abbrev pub is_live_row : Subscription → Bool
is_live_row r = is_live r.status

module _ (o : Outside) where
  -- A panel that fails ends the work on its group alone.
  unfoldable pub sync_groups : List (Uuid × List Subscription) → Action (Unit {0})
  sync_groups [] = pure tt
  sync_groups ((i, rs) ∷ groups) =
      catch_if is_xui_client_error (sync_xui_usage_and_status o i rs) (λ e. pure tt)
      >> sync_groups groups

  unfoldable pub sync_all_subscription_states : Action (Unit {0})
  unfolding group_by_server
  sync_all_subscription_states =
      managed λ s. sync_groups (group_by_server s (select is_live_row s.subscriptions) []) s

-- What `get_realtime_usage` tells.
pub record Usage : Type 0 where
  pub used_bytes : ℕ
  pub total_bytes : ℕ
  pub remaining_bytes : ℕ

module _ (o : Outside) where
  -- The writes behind the traffic; the clock is read twice.
  unfoldable pub record_usage : ℕ → Option Plan → Subscription → Action Usage
  record_usage used plan r = do
    now ← gets o.utcnow
    modify_session (λ s. write_usage r.id used (write_subscription (observed now used r) s))
    later ← gets o.utcnow
    modify_session (write_subscription (activated later (duration_of plan) (observed now used r)))
    pure (record {
      used_bytes = used;
      total_bytes = r.volume_bytes;
      remaining_bytes = r.volume_bytes - used;
    })

  unfoldable pub fetch_usage :
      Subscription → Option XuiClientRecord → Option XuiServerRecord → Action (Option Usage)
  fetch_usage r none server = pure none
  fetch_usage r (some client) none = pure none
  fetch_usage r (some client) (some server) = do
    plan ← gets (plan_of r.plan_id)
    used ← call_panel_traffic o (Call.get_client_traffic server.id client.email)
    usage ← record_usage used plan r
    pure (some usage)

  unfoldable pub get_realtime_usage : Subscription → Action (Option Usage)
  get_realtime_usage r = do
    client ← gets (λ s. find (client_of_subscription r.id) s.xui_clients)
    server ← gets (server_of client)
    fetch_usage r client server
