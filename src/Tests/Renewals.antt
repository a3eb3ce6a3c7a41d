-- ===== src/Tests/Renewals.antt =====
-- A renewal of the subscription in use.
use marzbot.Base.{◌≡◌, refl, false, some, ◌∷◌}
use marzbot.Base.Int.{pos, ◌-ℤ◌, ◌*ℤ◌, neg, leb_ℤ}
use marzbot.Base.Decimal.{quantize}
use marzbot.Models.{Order, OrderStatus, Wallet, debit}
use marzbot.Session.{Session, ok, Call, log}
use marzbot.Wallet.{get_by_user_id, set_balance}
use marzbot.Wallet.Branches.{exceeds}
use marzbot.Provisioning.Refund.{belongs_to}
use marzbot.Base.Table.{find}
use marzbot.Renewal.{RenewType, RenewConfirm, is_short, renew_confirm_payment, extended, linked_to}
use marzbot.Renewal.Charge.{renew_confirm_payment_renews}
use marzbot.Tests.World.{user, wallet}
use marzbot.Tests.Purchase.{up}
use marzbot.Tests.Configs.{running, using}

-- Ten days, and a tenth of a gibibyte, for one unit of money.
abbrev days : RenewConfirm
days = record {
  sub_id = 20;
  type = RenewType.time;
  amount = record { digits = 10; places = 0 };
  price = record { coefficient = pos 1; places = 0 };
}

abbrev tenth : RenewConfirm
tenth = record {
  sub_id = 20;
  type = RenewType.volume;
  amount = record { digits = 1; places = 1 };
  price = record { coefficient = pos 1; places = 0 };
}

abbrev charged_wallet : Wallet
charged_wallet = set_balance (pos 400_000_000) wallet

covered : is_short wallet.balance (record { coefficient = pos 1; places = 0 }) ≡ false
unfolding is_short ◌*ℤ◌
covered = refl

positive : leb_ℤ (quantize 8 (record { coefficient = pos 1; places = 0 })) (pos 0) ≡ false
unfolding quantize ◌*ℤ◌
positive = refl

within : exceeds debit wallet (quantize 8 (record { coefficient = pos 1; places = 0 })) ≡ false
unfolding quantize ◌*ℤ◌ ◌-ℤ◌ neg
within = refl

-- The order of the renewal.
abbrev paid : Order
paid = record {
  id = 1000;
  user_id = 1;
  plan_id = 3;
  status = OrderStatus.completed;
  source = "bot";
  amount = pos 100_000_000;
  currency = "USD";
}

renew_confirm_payment_renews_example :
    (t : Session) × (renew_confirm_payment up 100 tenth using ≡ ok tt t)
    × (get_by_user_id 1 t ≡ some charged_wallet)
    × (find (belongs_to 20 1) t.subscriptions
        ≡ some (record running { order_id = some 1000; volume_bytes = 107_375_182 }))
    × (t.orders ≡ paid ∷ using.orders)
    × (t.poisoned ≡ false)
unfolding quantize ◌*ℤ◌ ◌-ℤ◌ extended linked_to
renew_confirm_payment_renews_example =
    renew_confirm_payment_renews up 100 tenth using (log Call.answer_callback using) refl user
      wallet running 3 refl refl refl refl refl covered positive within refl (λ t. refl)
