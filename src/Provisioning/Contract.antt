-- ===== src/Provisioning/Contract.antt =====
-- What `ProvisioningManager.provision_subscription` does, by how it ends.
use marzbot.Base.{◌≡◌, Bool, true, false, some, List, ◌∷◌, arith}
use marzbot.Models.{Uuid, Str, provisioned, pending_activation}
use marzbot.Session.{Session, Run, Exn, failure, Call, Outside, ok, err, is_provisioning_error}
use marzbot.Provisioning.{
  ProvisioningResult, set_order_status, insert_client, new_subscription, panel_payload,
  record_client, provision_subscription,
}
use marzbot.Provisioning.Checks.{final-choose_inbound, generate_unique_client_identity-OnlyDraws}

-- The panel's client raises errors of its own, never the ones of provisioning.
abbrev pub PanelIsForeign : Outside → Type 0
PanelIsForeign o =
    (s : Session) (c : Call) (e : Exn) → o.panel s c ≡ failure e → is_provisioning_error e ≡ false

abbrev pub is_integrity_error : Exn → Bool
is_integrity_error Exn.integrity_error = true
is_integrity_error _ = false

-- The tables that provisioning has no business with.
pub record SameMoney (s s' : Session) : Type 0 where
  pub wallets : s'.wallets ≡ s.wallets
  pub transactions : s'.transactions ≡ s.transactions
  pub payments : s'.payments ≡ s.payments
  pub discounts : s'.discounts ≡ s.discounts

-- The latest call is the panel's, with the settings that the rows record.
abbrev pub IsSent : ProvisioningResult → List Call → Type 0
IsSent r (Call.add_client server remote_id c ∷ earlier) =
    (c.email ≡ r.xui_client.email)
    × (c.id ≡ r.xui_client.client_uuid)
    × (c.total_gb ≡ r.subscription.volume_bytes)
    × (c.enable ≡ true)
IsSent r _ = ⊥

abbrev pub Provisions : Uuid → Uuid → Uuid → Str → Session → Run ProvisioningResult → Type 0
Provisions user_id plan_id order_id name s (ok r s') =
    SameMoney s s'
    × (s'.subscriptions ≡ r.subscription ∷ s.subscriptions)
    × (s'.xui_clients ≡ r.xui_client ∷ s.xui_clients)
    × (s'.orders ≡ (set_order_status order_id provisioned s).orders)
    × (s'.poisoned ≡ s.poisoned)
    × (r.subscription.status ≡ pending_activation)
    × (r.subscription.user_id ≡ user_id)
    × (r.subscription.order_id ≡ some order_id)
    × (r.subscription.used_bytes ≡ 0)
    × (r.xui_client.subscription_id ≡ r.subscription.id)
    × (r.xui_client.username ≡ name)
    × (r.xui_client.is_active ≡ true)
    × IsSent r s'.calls
Provisions user_id plan_id order_id name s (err e s') =
    SameMoney s s'
    × (is_provisioning_error e ≡ true → s' ≡ record s { drawn = s'.drawn })
    × (is_integrity_error e ≡ false → s' ≡ record s { drawn = s'.drawn; calls = s'.calls })

-- If panel errors are never provisioning errors: a call that succeeds has sent the new client to the
-- panel, added one unused subscription of the user that waits for its first use and one active
-- client record that belongs to it, and marked the order as provisioned. A call that raises has
-- moved no money; if the error is one of provisioning it has written nothing and called no panel,
-- and if it is not the clash of a unique column it has written nothing.
pub provision_subscription-Provisions :
    (o : Outside) (user_id plan_id order_id : Uuid) (name : Str) (s : Session)
    → PanelIsForeign o
    → Provisions user_id plan_id order_id name s
        (provision_subscription o user_id plan_id order_id name s)
unfolding provision_subscription record_client insert_client new_subscription set_order_status
    panel_payload
provision_subscription-Provisions o user_id plan_id order_id name s foreign = grind (
  arith,
  final-choose_inbound user_id plan_id order_id s,
  generate_unique_client_identity-OnlyDraws,
)
