-- ===== src/Purchase/Finalize.antt =====
-- apps/bot/handlers/user/purchase.py: `_finalize_purchase`, from the order to the messages.
use marzbot.Base.{ℕ, Bool, true, false, Option, none, some, ◌∷◌, String}
use marzbot.Base.Int.{ℤ}
use marzbot.Base.Decimal.{of_money}
use marzbot.Models.{
  Uuid, Str, Order, OrderStatus, processing, provisioned, failed, refunded,
  failed_needs_manual_refund, Plan, User,
}
use marzbot.Session.{
  Action, Outside, Call, Text, pure, catch, catch_if, draw, gets, modify_session, call_telegram,
  is_insufficient_balance, is_provisioning_error, ◌>>=◌, ◌>>◌,
}
use marzbot.Wallet.{Request, process_transaction}
use marzbot.Provisioning.{ProvisioningResult, provision_subscription, set_order_status}
use marzbot.Notifications.{notify_admins}

-- The keyword arguments of the three calls of `process_transaction`.
unfoldable pub wallet_request : String → String → Uuid → ℤ → String → Uuid → Request
wallet_request type direction user_id amount currency order_id = record {
  user_id = user_id;
  amount = of_money amount;
  type = type;
  direction = direction;
  currency = currency;
  reference_type = some "order";
  reference_id = some order_id;
}

unfoldable pub new_order : Uuid → User → Plan → String → ℤ → Order
new_order id user plan source price = record {
  id = id;
  user_id = user.id;
  plan_id = plan.id;
  status = processing;
  source = source;
  amount = price;
  currency = plan.currency;
}

abbrev pub mark : Uuid → OrderStatus → Action (Unit {0})
mark i st = modify_session (set_order_status i st)

-- `session.add(order)` and the flush, which draws the order's id.
unfoldable pub place_order : Outside → User → Plan → String → ℤ → Action Uuid
unfolding new_order
place_order o user plan source price = do
  order_id ← draw o
  modify_session (λ s. record s { orders = new_order order_id user plan source price ∷ s.orders })
  pure order_id

module _ (o : Outside) where
  -- The debit; `false` if the balance does not suffice any more.
  unfoldable pub charge : ℕ → User → Plan → ℤ → Uuid → Action Bool
  unfolding wallet_request set_order_status
  charge chat_id user plan price order_id =
      catch_if is_insufficient_balance
        (do
          process_transaction
              (wallet_request "purchase" "debit" user.id price plan.currency order_id)
          pure true)
        λ e. do
          mark order_id failed
          call_telegram o (Call.send_message chat_id Text.balance_not_sufficient_anymore)
          pure false

  -- The refund, or the mark that asks for one by hand.
  unfoldable pub refund : User → Plan → ℤ → Uuid → Action (Unit {0})
  unfolding wallet_request set_order_status
  refund user plan price order_id =
      catch
        (do
          process_transaction
              (wallet_request "refund" "credit" user.id price plan.currency order_id)
          mark order_id refunded)
        λ e. mark order_id failed_needs_manual_refund

  -- Provisioning; `none` if it failed by an error of its own, and the price was given back.
  unfoldable pub provision_or_refund :
      ℕ → User → Plan → ℤ → Str → Uuid → Action (Option ProvisioningResult)
  unfolding refund
  provision_or_refund chat_id user plan price config_name order_id =
      catch_if is_provisioning_error
        (do
          provisioned_config ← provision_subscription o user.id plan.id order_id config_name
          pure (some provisioned_config))
        λ e. do
          refund user plan price order_id
          call_telegram o (Call.send_message chat_id Text.provisioning_failed_refunded)
          pure none

  -- `if qr_bytes: await bot.send_photo(…)`
  unfoldable pub send_qr : ℕ → Action (Unit {0})
  send_qr chat_id = do
    image ← gets o.has_qr
    elim image [ true ↦ call_telegram o (Call.send_photo chat_id) | false ↦ pure tt ]

  -- The messages once the client exists.
  unfoldable pub announce : ℕ → Action (Unit {0})
  unfolding send_qr
  announce chat_id = do
    call_telegram o (Call.send_message chat_id Text.config_ready)
    send_qr chat_id
    notify_admins o Text.admin_notice

  unfoldable pub finalize_purchase : ℕ → User → Plan → ℤ → Str → Action (Unit {0})
  unfolding place_order charge provision_or_refund set_order_status
  finalize_purchase chat_id user plan price config_name = do
    order_id ← place_order o user plan "bot" price
    charged ← charge chat_id user plan price order_id
    elim charged [
      | false ↦ pure tt
      | true ↦ provision_or_refund chat_id user plan price config_name order_id >>= λ done.
          elim done [ none ↦ pure tt | some config ↦ mark order_id provisioned >> announce chat_id ]
    ]
