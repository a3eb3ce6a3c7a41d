-- ===== src/Accounts/Access.antt =====
-- Who reaches the handlers of the administration (apps/bot/middlewares/admin.py), and what a ban of
-- an administrator is worth.
use marzbot.Base.{
  ℕ, ◌≡◌, refl, Bool, true, false, not, ◌&&◌, ◌||◌, Option, none, some, arith, str_eq, Bool-cases,
  inl, inr, if◌then◌else◌,
}
use marzbot.Base.Table.{find-modify_same}
use marzbot.Models.{User}
use marzbot.Session.{Session, Action, Outside, Call, answer, final, call_telegram}
use marzbot.Notifications.{is_admin}
use marzbot.Notifications.Silent.{OnlyCalls}
use marzbot.Purchase.{has_telegram_id, get_by_telegram_id}
use marzbot.Accounts.{
  user_has_id, set_user, as_owner, promoted, is_owner_id, ensure_owner_role, ensure_for,
  ensure_admin_access, admit, admin_only, pass, user_access,
}
use marzbot.Accounts.Manage.{user_at, turned, toggle_found, admin_toggle_ban}

call_telegram-OnlyCalls : (o : Outside) (c : Call) (s : Session) → OnlyCalls s (call_telegram o c s)
call_telegram-OnlyCalls o c s = ground arith

promoted-is_admin :
    (is_owner : Bool) (u : User)
    → is_admin u || is_owner ≡ true
    → is_admin (promoted is_owner u) ≡ true
promoted-is_admin true u h = elim (Bool-cases (str_eq u.role "owner")) [
  | inl e ↦ rw e (ground arith)
  | inr e ↦ rw e refl
]
promoted-is_admin false u h = ground arith

-- The session in which the handler is run: the owner has the owner's role.
abbrev pub entered : Outside → ℕ → Session → User → Session
entered o telegram_id s u =
    if is_owner_id o telegram_id && not (str_eq u.role "owner") then set_user u.id as_owner s else s

module _ (o : Outside) (telegram_id : ℕ) (handler : User → Action (Unit {0})) (s : Session) where
  -- How the middleware ends, by the user that the Telegram id belongs to.
  abbrev pub Decided : Option User → Type 0
  Decided none = OnlyCalls s (admin_only o telegram_id handler s)
  Decided (some u) =
      (is_admin u || is_owner_id o telegram_id ≡ true
        → admin_only o telegram_id handler s
          ≡ handler (promoted (is_owner_id o telegram_id) u) (entered o telegram_id s u))
      × (is_admin u || is_owner_id o telegram_id ≡ false
          → OnlyCalls s (admin_only o telegram_id handler s))

  -- A handler of the administration is run for a known user who is an administrator or the owner of
  -- the settings, who is given the owner's role; for anyone else no row is changed.
  pub admin_only-Decided :
      (found : Option User) → get_by_telegram_id telegram_id s ≡ found → Decided found
  unfolding admin_only ensure_admin_access ensure_for ensure_owner_role admit
  admin_only-Decided none e = rw e (call_telegram-OnlyCalls o Call.answer_callback s)
  admin_only-Decided (some u) e = (
    λ h. ground (arith, promoted-is_admin (is_owner_id o telegram_id) u h),
    λ h. ground (arith, call_telegram-OnlyCalls o Call.answer_callback s),
  )

abbrev pub barred : User → User
barred u = record u { status = "banned"; is_bot_blocked = true }

-- The session after `admin` has banned `u`.
abbrev pub after_ban : Outside → User → User → Session → Session
after_ban o admin u s = final (admin_toggle_ban o admin u.id s)

module _ (o : Outside) (admin u : User) (s : Session)
    (answers : (t : Session) → o.telegram t Call.answer_callback ≡ answer tt)
    (by_id : user_at u.id s ≡ some u) (by_telegram_id : get_by_telegram_id u.telegram_id s ≡ some u)
    (not_banned : str_eq u.status "banned" ≡ false) where
  turned-barred : turned u ≡ barred u
  turned-barred = rw not_banned

  still_there : get_by_telegram_id u.telegram_id (after_ban o admin u s) ≡ some (barred u)
  unfolding admin_toggle_ban toggle_found
  still_there =
      rw (answers s, by_id)
        (rw (← turned-barred) (
          find-modify_same (has_telegram_id u.telegram_id) (user_has_id u.id) turned s.users
            by_telegram_id by_id (ground arith)))

  -- An administrator who is banned by another keeps the administration: whatever handler of the
  -- user's router is asked for is refused, and whatever handler of the administration is run.
  pub admin_toggle_ban-not_binding :
      (mine : Action (Unit {0})) (handler : User → Action (Unit {0}))
      → is_admin u ≡ true
      → OnlyCalls (after_ban o admin u s) (user_access o u.telegram_id mine (after_ban o admin u s))
        × (admin_only o u.telegram_id handler (after_ban o admin u s)
            ≡ handler
                (promoted (is_owner_id o u.telegram_id) (barred u))
                (entered o u.telegram_id (after_ban o admin u s) (barred u)))
  unfolding user_access pass
  admin_toggle_ban-not_binding mine handler is_one = (
    rw still_there (call_telegram-OnlyCalls o Call.answer_callback (after_ban o admin u s)),
    (admin_only-Decided o u.telegram_id handler (after_ban o admin u s) (some (barred u))
          still_there).0
        (ground arith),
  )
