-- ===== src/Tests/Purchase.antt =====
-- Purchases from the wallet: delivered, refunded and lost.
use marzbot.Base.{◌≡◌, refl, false, some, [], ◌∷◌, arith}
use marzbot.Base.Int.{pos, neg, ◌-ℤ◌}
use marzbot.Base.Text.{codes}
use marzbot.Models.{refunded, provisioned, debit}
use marzbot.Session.{Session, Run, Outside, answer, failure, Exn, ok, err, final}
use marzbot.Wallet.Branches.{exceeds}
use marzbot.Wallet.{get_by_user_id, set_balance, post}
use marzbot.Provisioning.{ProvisioningResult, provision_subscription, choose_inbound, inbound_of}
use marzbot.Provisioning.Identity.{generate_unique_client_identity}
use marzbot.Runtime.{ensure_inbound_server_loaded}
use marzbot.Provisioning.Contract.{PanelIsForeign}
use marzbot.Purchase.Finalize.{finalize_purchase, place_order}
use marzbot.Purchase.Stages.{paid}
use marzbot.Purchase.Outcome.{order_with, finalize_purchase_refunds, finalize_purchase_delivers}
use marzbot.Tests.World.{world, shop, wallet, plan, user, inbound}

-- A world whose panels answer, and one whose panels cannot be reached.
abbrev pub up : Outside
up = world (answer tt)

abbrev pub down : Outside
down = world (failure (Exn.xui_request []))

pub up-PanelIsForeign : PanelIsForeign up
up-PanelIsForeign s c e same = ground arith

-- The user pays two units.
abbrev paid_shop : Outside → Session → Session
paid_shop o s = paid o user plan (pos 200_000_000) wallet s

within : exceeds debit wallet (pos 200_000_000) ≡ false
unfolding neg ◌-ℤ◌
within = refl

no_inbound :
    provision_subscription up 1 3 1000 (codes "me") (paid_shop up (shop []))
    ≡ err Exn.provisioning_error (paid_shop up (shop []))
unfolding provision_subscription choose_inbound inbound_of place_order post
no_inbound = refl

finalize_purchase_refunds_example :
    let t = final (finalize_purchase up 100 user plan (pos 200_000_000) (codes "me") (shop [])) in
    (get_by_user_id 1 t ≡ some wallet)
    × (t.orders
        ≡ record (order_with up user plan (pos 200_000_000) (shop [])) { status = refunded } ∷ [])
    × (t.subscriptions ≡ [])
    × (t.xui_clients ≡ [])
finalize_purchase_refunds_example =
    finalize_purchase_refunds up 100 user plan (pos 200_000_000) (codes "me") (shop []) wallet refl
      (ground arith) within up-PanelIsForeign Exn.provisioning_error (paid_shop up (shop []))
      no_inbound refl

abbrev lost : Session
lost =
    final (provision_subscription down 1 3 1000 (codes "me") (paid_shop down (shop (inbound ∷ []))))

abbrev reached : Run ProvisioningResult
reached = provision_subscription up 1 3 1000 (codes "me") (paid_shop up (shop (inbound ∷ [])))

delivered : (r : ProvisioningResult) × (s' : Session) × (reached ≡ ok r s')
unfolding provision_subscription choose_inbound inbound_of place_order post
    ensure_inbound_server_loaded generate_unique_client_identity
delivered = (_, _, refl)

finalize_purchase_delivers_example :
    let t =
      final
        (finalize_purchase up 100 user plan (pos 200_000_000) (codes "me") (shop (inbound ∷ []))) in
    (get_by_user_id 1 t ≡ some (set_balance (pos 500_000_000 -ℤ pos 200_000_000) wallet))
    × (t.orders
        ≡ record (order_with up user plan (pos 200_000_000) (shop (inbound ∷ []))) {
          status = provisioned;
        }
          ∷ [])
    × (t.subscriptions ≡ (delivered.0).subscription ∷ [])
    × (t.xui_clients ≡ (delivered.0).xui_client ∷ [])
finalize_purchase_delivers_example =
    finalize_purchase_delivers up 100 user plan (pos 200_000_000) (codes "me") (shop (inbound ∷ []))
      wallet refl (ground arith) within up-PanelIsForeign (delivered.0) (delivered.1) (delivered.2)
