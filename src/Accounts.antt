-- ===== src/Accounts.antt =====
-- Who may do what: repositories/user.py, and the middlewares apps/bot/middlewares/user.py, before the
-- user's handlers, and apps/bot/middlewares/admin.py, before those of the administration.
-- Two sessions at once are not modelled, so the new user's Telegram id is not taken in between.
pub mod Manage
pub mod Access
pub mod Balance
pub mod Registry
use marzbot.Base.{
  ℕ, Bool, true, false, not, ◌&&◌, ◌||◌, Option, none, some, ◌∷◌, String, str_eq, ◌==◌, is_some,
  if◌then◌else◌,
}
use marzbot.Base.Int.{pos}
use marzbot.Base.Table.{find, modify}
use marzbot.Models.{Uuid, Time, User, Wallet}
use marzbot.Session.{
  Session, Action, Exn, Outside, Call, Text, pure, draw, gets, or_raise, modify_session, nested,
  call_telegram, ◌>>=◌, ◌>>◌,
}
use marzbot.Notifications.{is_admin}
use marzbot.Purchase.{get_by_telegram_id}

abbrev pub user_has_id : Uuid → User → Bool
user_has_id i u = u.id == i

-- A write to a user that the session has loaded.
abbrev pub set_user : Uuid → (User → User) → Session → Session
set_user i f s = record s { users = modify (user_has_id i) f s.users }

abbrev pub as_owner : User → User
as_owner u = record u { role = "owner" }

-- The user as `_ensure_owner_role` leaves it.
abbrev pub promoted : Bool → User → User
promoted is_owner u = if is_owner && not (str_eq u.role "owner") then as_owner u else u

-- What `UserAccessMiddleware` writes.
abbrev pub seen : Time → User → User
seen now u = record u { last_seen_at = some now }

unfoldable pub new_wallet : Uuid → Uuid → Wallet
new_wallet id user_id = record {
  id = id;
  user_id = user_id;
  balance = pos 0;
  credit_limit = pos 0;
  hold_balance = pos 0;
}

module _ (o : Outside) where
  abbrev pub is_owner_id : ℕ → Bool
  is_owner_id telegram_id = telegram_id == o.owner_telegram_id

  -- `_ensure_owner_role`
  unfoldable pub ensure_owner_role : User → ℕ → Action (Unit {0})
  ensure_owner_role u telegram_id =
      if is_owner_id telegram_id && not (str_eq u.role "owner")
      then modify_session (set_user u.id as_owner)
      else pure tt

  unfoldable pub new_user : Uuid → ℕ → Time → User
  new_user id telegram_id now = record {
    id = id;
    telegram_id = telegram_id;
    status = "active";
    role = if is_owner_id telegram_id then "owner" else "user";
    is_bot_blocked = false;
    has_received_free_trial = false;
    last_seen_at = some now;
  }

  -- The body of the nested transaction: the user and its wallet (and a profile, which is never read).
  unfoldable pub add_user : ℕ → Action (Unit {0})
  unfolding new_user new_wallet
  add_user telegram_id = do
    now ← gets o.utcnow
    id ← draw o
    modify_session (λ s. record s { users = new_user id telegram_id now ∷ s.users })
    wallet_id ← draw o
    modify_session (λ s. record s { wallets = new_wallet wallet_id id ∷ s.wallets })

  unfoldable pub get_or_create : ℕ → Option User → Action (User × Bool)
  unfolding ensure_owner_role add_user
  get_or_create telegram_id (some u) = do
    ensure_owner_role u telegram_id
    pure (promoted (is_owner_id telegram_id) u, false)
  get_or_create telegram_id none = do
    nested (add_user telegram_id)
    created ← gets (get_by_telegram_id telegram_id)
    u ← or_raise created Exn.other_error
    pure (u, true)

  unfoldable pub get_or_create_user : ℕ → Action (User × Bool)
  unfolding get_or_create
  get_or_create_user telegram_id = do
    existing ← gets (get_by_telegram_id telegram_id)
    get_or_create telegram_id existing

  -- `ensure_admin_access`
  unfoldable pub ensure_for : ℕ → Option User → Action (Option User)
  unfolding ensure_owner_role
  ensure_for telegram_id none = pure none
  ensure_for telegram_id (some u) = do
    ensure_owner_role u telegram_id
    pure (some (promoted (is_owner_id telegram_id) u))

  unfoldable pub ensure_admin_access : ℕ → Action (Option User)
  unfolding ensure_for
  ensure_admin_access telegram_id = do
    u ← gets (get_by_telegram_id telegram_id)
    ensure_for telegram_id u

  -- The refusals, `_deny_user` and `_deny_access`, of a click; a message is answered with the text.
  abbrev pub deny : Text → Action (Unit {0})
  deny text = call_telegram o Call.answer_callback

  -- `AdminOnlyMiddleware`: the handler is given the administrator.
  unfoldable pub admit : ℕ → (User → Action (Unit {0})) → Option User → Action (Unit {0})
  admit telegram_id handler none =
      deny (if is_owner_id telegram_id then Text.missing_start else Text.access_denied)
  admit telegram_id handler (some u) = elim (is_admin u) [
    | true ↦ handler u
    | false ↦ deny Text.access_denied
  ]

  unfoldable pub admin_only : ℕ → (User → Action (Unit {0})) → Action (Unit {0})
  unfolding admit ensure_admin_access
  admin_only telegram_id handler = do
    u ← ensure_admin_access telegram_id
    admit telegram_id handler u

  -- `UserAccessMiddleware`: a user that is not known yet passes.
  unfoldable pub pass : Action (Unit {0}) → Option User → Action (Unit {0})
  pass handler none = handler
  pass handler (some u) = elim (str_eq u.status "banned") [
    | true ↦ deny Text.access_denied
    | false ↦ do now ← gets o.utcnow; modify_session (set_user u.id (seen now)); handler
  ]

  unfoldable pub user_access : ℕ → Action (Unit {0}) → Action (Unit {0})
  unfolding pass
  user_access telegram_id handler = do u ← gets (get_by_telegram_id telegram_id); pass handler u

-- `mark_free_trial_received`
unfoldable pub mark_free_trial_received : Uuid → Action (Option User)
mark_free_trial_received i = do
  modify_session (set_user i (λ u. record u { has_received_free_trial = true }))
  gets (λ s. find (user_has_id i) s.users)
