-- ===== src/Tests/Accounts.antt =====
-- Administrators, users and their balances.
use marzbot.Base.{◌≡◌, refl, Bool, true, false, some, [], ◌∷◌, arith}
use marzbot.Base.Int.{negsuc, ◌*ℤ◌, abs, ◌-ℤ◌, neg}
use marzbot.Base.Decimal.{Decimal, quantize}
use marzbot.Models.{User}
use marzbot.Session.{Session, Action, ok, modify_session}
use marzbot.Notifications.Silent.{OnlyCalls}
use marzbot.Accounts.{admin_only, promoted, user_access, set_user}
use marzbot.Accounts.Manage.{admin_edit_balance_submit}
use marzbot.Accounts.Access.{
  Decided, barred, entered, after_ban, admin_only-Decided, admin_toggle_ban-not_binding,
}
use marzbot.Accounts.Balance.{Adjusted, admin_edit_balance_submit-Adjusted}
use marzbot.Accounts.Registry.{Registers, get_or_create_user-Registers}
use marzbot.Tests.World.{shop, user, wallet}
use marzbot.Tests.Purchase.{up}

-- An administrator beside the user of the other tests.
abbrev admin : User
admin = record user { id = 11; telegram_id = 111; role = "admin" }

abbrev staffed : Session
staffed = record (shop []) { users = admin ∷ (user ∷ []) }

-- What a handler of the administration might do.
abbrev handler : User → Action (Unit {0})
handler u = modify_session (set_user u.id (λ v. record v { role = "admin" }))

admin_only-Decided_example : Decided up 100 handler staffed (some user)
admin_only-Decided_example = admin_only-Decided up 100 handler staffed (some user) refl

admin_toggle_ban-not_binding_example :
    OnlyCalls
      (after_ban up user admin staffed)
      (user_access up 111 (handler user) (after_ban up user admin staffed))
    × (admin_only up 111 handler (after_ban up user admin staffed)
        ≡ handler
            (promoted false (barred admin))
            (entered up 111 (after_ban up user admin staffed) (barred admin)))
admin_toggle_ban-not_binding_example =
    admin_toggle_ban-not_binding up user admin staffed (λ t. refl) refl refl refl (handler user)
      handler refl

abbrev asked : Session
asked = record (shop []) { form = record ((shop []).form) { target_user_id = some 1 } }

-- Three units are taken off.
abbrev less_three : Decimal
less_three = record { coefficient = negsuc 2; places = 0 }

admin_edit_balance_submit-Adjusted_example :
    (t : Session) × (admin_edit_balance_submit up admin true (some less_three) asked ≡ ok tt t)
    × Adjusted admin user wallet less_three asked t
unfolding quantize ◌*ℤ◌ abs ◌-ℤ◌ neg
admin_edit_balance_submit-Adjusted_example =
    admin_edit_balance_submit-Adjusted up admin user wallet less_three asked refl refl refl refl
      refl refl (λ t. refl)

get_or_create_user-Registers_example :
    (u : User) × (new : Bool) × (t : Session) × Registers up 7 (shop []) u new t
get_or_create_user-Registers_example =
    get_or_create_user-Registers up 7 (shop []) (refl, tt) (λ u e. ground arith)
