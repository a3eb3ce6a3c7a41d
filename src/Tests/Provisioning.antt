-- ===== src/Tests/Provisioning.antt =====
-- One client provisioned for an order of the user.
use marzbot.Base.{◌≡◌, refl, [], ◌∷◌}
use marzbot.Base.Text.{codes}
use marzbot.Models.{Order, processing, Plan, XuiInboundRecord, XuiServerRecord}
use marzbot.Base.Int.{pos}
use marzbot.Session.{Session, Run, ok}
use marzbot.Runtime.{ensure_inbound_server_loaded}
use marzbot.Provisioning.{ProvisioningResult, provision_subscription, choose_inbound, inbound_of}
use marzbot.Provisioning.Identity.{generate_unique_client_identity}
use marzbot.Provisioning.Contract.{Provisions, provision_subscription-Provisions}
use marzbot.Provisioning.Capacity.{HasRoom, provision_subscription-HasRoom}
use marzbot.Tests.World.{shop, inbound}
use marzbot.Tests.Purchase.{up, up-PanelIsForeign}

abbrev pub order : Order
order = record {
  id = 11;
  user_id = 1;
  plan_id = 3;
  status = processing;
  source = "bot";
  amount = pos 200_000_000;
  currency = "USD";
}

abbrev ready : Session
ready = record (shop (inbound ∷ [])) { orders = order ∷ [] }

abbrev attempted : Run ProvisioningResult
attempted = provision_subscription up 1 3 11 (codes "me") ready

provision_subscription-Provisions_example : Provisions 1 3 11 (codes "me") ready attempted
provision_subscription-Provisions_example =
    provision_subscription-Provisions up 1 3 11 (codes "me") ready up-PanelIsForeign

done : (r : ProvisioningResult) × (s' : Session) × (attempted ≡ ok r s')
unfolding provision_subscription choose_inbound inbound_of ensure_inbound_server_loaded
    generate_unique_client_identity
done = (_, _, refl)

provision_subscription-HasRoom_example :
    (plan : Plan) × (inbound : XuiInboundRecord) × (server : XuiServerRecord) × HasRoom ready 3
      (plan, inbound, server)
    × ((done.0).xui_client.inbound_id ≡ inbound.id)
    × ((done.0).subscription.volume_bytes ≡ plan.volume_bytes)
provision_subscription-HasRoom_example =
    provision_subscription-HasRoom up 1 3 11 (codes "me") ready (done.1) (done.0) (done.2)
