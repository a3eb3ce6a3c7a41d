-- ===== src/Provisioning/Capacity.antt =====
-- Where `provision_subscription` puts a client (services/provisioning/manager.py).
use marzbot.Base.{
  ℕ, ◌<◌, ◌≡◌, refl, true, none, some, arith, ◌⊎◌, inl, inr, ◌&&◌, ◌==◌, is_some, sym, ◌∙◌,
  Option-cases, false,
}
use mathlib.Core.Option.{some-injective}
use marzbot.Base.Table.{find, find_last, count}
use marzbot.Models.{Uuid, Str, Plan, XuiInboundRecord, XuiServerRecord}
use marzbot.Session.{Session, Run, Outside, ok, err}
use marzbot.Runtime.{ensure_inbound_server_loaded, inbound_has_id, server_has_id}
use marzbot.Provisioning.{
  ProvisioningResult, active_count, inbound_of, is_full, plan_has_id, choose_inbound,
  provision_subscription, record_client, insert_client, new_subscription,
}

-- The inbound of the plan, or without one the oldest active inbound.
abbrev pub IsInboundFor : Plan → XuiInboundRecord → Session → Type 0
IsInboundFor plan inbound s =
    ((i : Uuid) × (plan.inbound_id ≡ some i) × (find (inbound_has_id i) s.inbounds ≡ some inbound))
    ⊎ (((i : Uuid) → plan.inbound_id ≡ some i → find (inbound_has_id i) s.inbounds ≡ none)
        × (find_last (λ n. n.is_active) s.inbounds ≡ some inbound))

inbound_of-IsInboundFor :
    (plan : Plan) (inbound : XuiInboundRecord) (s : Session)
    → inbound_of plan s ≡ some inbound
    → IsInboundFor plan inbound s
unfolding inbound_of
inbound_of-IsInboundFor plan inbound s e = elim (Option-cases plan.inbound_id) [
  | inl missing ↦ inr (λ i d. cc, ground arith)
  | inr (i, given) ↦ elim (Option-cases (find (inbound_has_id i) s.inbounds)) [
    | inl gone ↦
        inr (
          λ j d. let same : j ≡ i = some-injective _ _ (sym d ∙ given) in rw same gone,
          ground arith,
        )
    | inr (n, there) ↦ inl (i, given, ground arith)
  ]
]

-- The plan of that id; its inbound, or without one the oldest active inbound; and the inbound's
-- server: all of them rows of the session, active, and with room for one more client.
abbrev pub HasRoom : Session → Uuid → Plan × XuiInboundRecord × XuiServerRecord → Type 0
HasRoom s plan_id (plan, inbound, server) =
    (find (plan_has_id plan_id) s.plans ≡ some plan)
    × IsInboundFor plan inbound s
    × (find (server_has_id inbound.server_id) s.servers ≡ some server)
    × (plan.is_active ≡ true)
    × (inbound.is_active ≡ true)
    × (server.is_active ≡ true)
    × (server.has_credentials ≡ true)
    × ((m : ℕ)
        → server.max_clients ≡ some m
        → count
            (λ c.
              c.is_active
              && is_some (find (λ n. n.id == c.inbound_id && n.server_id == server.id) s.inbounds))
            s.xui_clients
          < m)

choose_inbound-inbound_of :
    (user_id plan_id order_id : Uuid) (s s' : Session) (plan : Plan) (inbound : XuiInboundRecord)
    (server : XuiServerRecord)
    → choose_inbound user_id plan_id order_id s ≡ ok (plan, inbound, server) s'
    → (find (plan_has_id plan_id) s.plans ≡ some plan)
      × (plan.is_active ≡ true)
      × (inbound_of plan s ≡ some inbound)
      × (inbound.is_active ≡ true)
      × (ensure_inbound_server_loaded inbound s ≡ ok server s)
      × (server.is_active ≡ true)
      × (is_full server.max_clients (active_count server.id s) ≡ false)
unfolding choose_inbound ensure_inbound_server_loaded
choose_inbound-inbound_of user_id plan_id order_id s s' plan inbound server chosen = ground arith

loaded_rows :
    (inbound : XuiInboundRecord) (server : XuiServerRecord) (s : Session)
    → ensure_inbound_server_loaded inbound s ≡ ok server s
    → (find (server_has_id inbound.server_id) s.servers ≡ some server)
      × (server.has_credentials ≡ true)
unfolding ensure_inbound_server_loaded
loaded_rows inbound server s e = ground arith

below :
    (server : XuiServerRecord) (s : Session)
    → is_full server.max_clients (active_count server.id s) ≡ false
    → (m : ℕ) → server.max_clients ≡ some m
    → active_count server.id s < m
below server s e m given = ground arith

choose_inbound-HasRoom :
    (user_id plan_id order_id : Uuid) (s s' : Session)
    (place : Plan × XuiInboundRecord × XuiServerRecord)
    → choose_inbound user_id plan_id order_id s ≡ ok place s'
    → HasRoom s plan_id place
unfolding active_count
choose_inbound-HasRoom user_id plan_id order_id s s' (plan, inbound, server) chosen =
    let (planned, usable, placed, opened, loaded, up, room) =
      choose_inbound-inbound_of user_id plan_id order_id s s' plan inbound server chosen in
    let (there, credentials) = loaded_rows inbound server s loaded in
    (
      planned,
      inbound_of-IsInboundFor plan inbound s placed,
      there,
      usable,
      opened,
      up,
      credentials,
      below server s room,
    )

-- A client that was provisioned is on the inbound of the plan asked for, or on the oldest active
-- inbound if the plan has none. Plan, inbound and the inbound's server are rows of the session, all
-- active, the server has credentials and had fewer active clients than its maximum, if it has one;
-- the plan gives the volume.
pub provision_subscription-HasRoom :
    (o : Outside) (user_id plan_id order_id : Uuid) (name : Str) (s s' : Session)
    (r : ProvisioningResult)
    → provision_subscription o user_id plan_id order_id name s ≡ ok r s'
    → (plan : Plan) × (inbound : XuiInboundRecord) × (server : XuiServerRecord) × HasRoom s plan_id
        (plan, inbound, server)
      × (r.xui_client.inbound_id ≡ inbound.id)
      × (r.subscription.volume_bytes ≡ plan.volume_bytes)
unfolding provision_subscription record_client insert_client new_subscription
provision_subscription-HasRoom o user_id plan_id order_id name s s' r done =
    placed (choose_inbound user_id plan_id order_id s) refl
  where
    placed :
        (chosen : Run (Plan × XuiInboundRecord × XuiServerRecord))
        → choose_inbound user_id plan_id order_id s ≡ chosen
        → (plan : Plan) × (inbound : XuiInboundRecord) × (server : XuiServerRecord) × HasRoom s
            plan_id
            (plan, inbound, server)
          × (r.xui_client.inbound_id ≡ inbound.id)
          × (r.subscription.volume_bytes ≡ plan.volume_bytes)
    placed (err e t) same = ground arith
    placed (ok (plan, inbound, server) t) same = (
      plan,
      inbound,
      server,
      choose_inbound-HasRoom user_id plan_id order_id s t (plan, inbound, server) same,
      ground arith,
      ground arith,
    )
