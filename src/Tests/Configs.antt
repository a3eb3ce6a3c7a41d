-- ===== src/Tests/Configs.antt =====
-- Changes of a configuration, by its owner.
use marzbot.Base.{◌≡◌, refl, true, false, none, some, [], ◌∷◌, arith}
use marzbot.Base.Int.{pos, ◌+ℤ◌}
use marzbot.Models.{Subscription, active, provisioned, OrderStatus, SubscriptionStatus}
use marzbot.Session.{Session, Call, ok, answer, final, log}
use marzbot.Runtime.{ensure_inbound_server_loaded}
use marzbot.Wallet.{get_by_user_id, set_balance}
use marzbot.Provisioning.Refund.{belongs_to, client_of_subscription}
use marzbot.Base.Table.{find}
use marzbot.MyConfigs.{owned, place_of, toggle_enable_handler, reset_uuid_handler}
use marzbot.MyConfigs.Ending.{
  order_to_refund, remove_client, remove_usable, delete_from_panel, cancel_and_refund_config,
}
use marzbot.MyConfigs.Links.{Relinked, relink_call, reset_uuid_handler-Relinked}
use marzbot.MyConfigs.Switch.{toggle_enable_handler_twice}
use marzbot.MyConfigs.Cancel.{cancel_and_refund_config_refunds}
use marzbot.MyConfigs.Ownership.{ConfigAction, dispatch, dispatch-Spares}
use marzbot.MyConfigs.Sparing.{Spares}
use marzbot.Tests.World.{inbound, server, user, wallet}
use marzbot.Tests.Purchase.{up}
use marzbot.Tests.Provisioning.{order}
use marzbot.Tests.Subscriptions.{waiting, client, subscribed}

-- The subscription in use.
abbrev pub running : Subscription
running = record waiting { status = active }

abbrev pub using : Session
using = record subscribed { subscriptions = running ∷ [] }

-- Once the click is answered.
abbrev using_clicked : Session
using_clicked = log Call.answer_callback using

mine : owned 100 20 using_clicked ≡ some (user, running)
unfolding owned
mine = refl

placed : place_of 20 using_clicked ≡ some (client, inbound, server)
unfolding place_of
placed = refl

mine_first : owned 100 20 using ≡ some (user, running)
unfolding owned
mine_first = refl

placed_first : place_of 20 using ≡ some (client, inbound, server)
unfolding place_of
placed_first = refl

toggle_enable_handler_twice_example :
    (t : Session) × (t' : Session) × (toggle_enable_handler up 100 20 using ≡ ok tt t)
    × (find (client_of_subscription 20) t.xui_clients ≡ some (record client { is_active = false }))
    × (toggle_enable_handler up 100 20 t ≡ ok tt t')
    × (t' ≡ record using { calls = t'.calls })
toggle_enable_handler_twice_example =
    toggle_enable_handler_twice up 100 20 user running inbound server refl refl refl
      (λ t call. refl) (λ t. refl) using client mine_first placed_first

reset_uuid_handler-Relinked_example :
    (t : Session) × (reset_uuid_handler up 100 20 using ≡ ok tt t)
    × (t.calls
        ≡ relink_call up 100 20 using using_clicked refl user running client inbound server mine
            refl placed refl refl
          ∷ Call.answer_callback
          ∷ [])
    × Relinked up 100 20 using using_clicked refl user running client inbound server mine refl
        placed refl refl
        (answer tt)
        t
reset_uuid_handler-Relinked_example =
    reset_uuid_handler-Relinked up 100 20 using using_clicked refl user running client inbound
      server mine refl placed refl refl (answer tt) refl

-- The subscription not yet used, whose order was delivered.
abbrev bought : Session
bought = record subscribed { orders = record order { status = provisioned } ∷ [] }

abbrev bought_clicked : Session
bought_clicked = log Call.answer_callback bought

mine_unused : owned 100 20 bought_clicked ≡ some (user, waiting)
unfolding owned
mine_unused = refl

goes : (t : Session) × (remove_client up 20 (place_of 20 bought_clicked) bought_clicked ≡ ok true t)
unfolding place_of remove_client remove_usable delete_from_panel ensure_inbound_server_loaded
goes = (_, refl)

chosen : order_to_refund 1 (some 3) bought_clicked ≡ some (record order { status = provisioned })
unfolding order_to_refund
chosen = refl

cancel_and_refund_config_refunds_example :
    (t : Session) × (t' : Session) × (cancel_and_refund_config up 100 20 bought ≡ ok tt t)
    × (get_by_user_id 1 t ≡ some (set_balance (pos 700_000_000) wallet))
    × (find (belongs_to 20 1) t.subscriptions
        ≡ some (record waiting { status = SubscriptionStatus.refunded; sub_link = none }))
    × (t.orders ≡ record order { status = OrderStatus.refunded } ∷ [])
    × (cancel_and_refund_config up 100 20 t ≡ ok tt t')
    × (t' ≡ record t { calls = t'.calls })
unfolding ◌+ℤ◌
cancel_and_refund_config_refunds_example =
    cancel_and_refund_config_refunds up 100 20 bought bought_clicked (goes.0) user waiting refl
      (λ t. refl) mine_unused refl (goes.1) (record order { status = provisioned }) chosen refl
      wallet refl

dispatch-Spares_example :
    Spares 2 using (final (dispatch up ConfigAction.refresh_usage 100 20 using))
dispatch-Spares_example =
    dispatch-Spares up ConfigAction.refresh_usage 100 20 using user 2 refl (λ e. ground arith)
      (λ j r found. ground arith)
