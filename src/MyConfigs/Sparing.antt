-- ===== src/MyConfigs/Sparing.antt =====
-- What a handler of apps/bot/handlers/user/my_configs.py leaves of the rows of another user.
use marzbot.Base.{◌≡◌, refl, ◌∙◌}
use marzbot.Base.Table.{find}
use marzbot.Models.{Uuid}
use marzbot.Session.{Session}
use marzbot.Wallet.{get_by_user_id}
use marzbot.Provisioning.Refund.{belongs_to}

-- What belongs to the user `x` is as before.
pub record Spares (x : Uuid) (s s' : Session) : Type 0 where
  pub subscriptions :
      (j : Uuid) → find (belongs_to j x) s'.subscriptions ≡ find (belongs_to j x) s.subscriptions
  pub wallet : get_by_user_id x s' ≡ get_by_user_id x s

pub Spares-refl : (x : Uuid) (s : Session) → Spares x s s
Spares-refl x s = record { subscriptions = λ j. refl; wallet = refl }

pub Spares-trans : (x : Uuid) (s t v : Session) → Spares x s t → Spares x t v → Spares x s v
Spares-trans x s t v a b = record {
  subscriptions = λ j. b.subscriptions j ∙ a.subscriptions j;
  wallet = b.wallet ∙ a.wallet;
}
