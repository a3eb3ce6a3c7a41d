-- ===== src/ExpiryNotices.antt =====
-- apps/worker/jobs/expiry_notifications.py: the notices of an end within a day and of a volume nearly
-- used up. The ratio of the bytes is exact here; a double of it compares with 0.9 in the same way
-- for volumes below 2^50 bytes.
pub mod Addressed
use marzbot.Base.{
  ℕ, ◌+◌, ◌*◌, Bool, true, false, not, ◌&&◌, Option, none, some, List, [], ◌∷◌, leb, ltb,
}
use marzbot.Base.Table.{find, select}
use marzbot.Models.{Uuid, Time, User, Subscription, SubscriptionStatus}
use marzbot.Session.{
  Session, Action, Exn, Outside, Call, Text, pure, gets, catch, modify_session, call_telegram,
  ◌>>=◌, ◌>>◌,
}
use marzbot.Accounts.{user_has_id, set_user}
use marzbot.Support.{blocked}

abbrev pub is_active : SubscriptionStatus → Bool
is_active SubscriptionStatus.active = true
is_active _ = false

-- `ends_at <= now + 24h`, `ends_at > now`
abbrev pub ends_within_a_day : Time → Option Time → Bool
ends_within_a_day now none = false
ends_within_a_day now (some e) = leb e (now + 86400) && ltb now e

abbrev pub ends_soon : Time → Subscription → Bool
ends_soon now r = is_active r.status && ends_within_a_day now r.ends_at

-- Nine tenths of a volume that is not zero.
abbrev pub is_nearly_used : Subscription → Bool
is_nearly_used r =
    is_active r.status && ltb 0 r.volume_bytes && not (ltb (r.used_bytes * 10) (r.volume_bytes * 9))

module _ (o : Outside) where
  -- What an exception of the message leads to.
  unfoldable pub after_failure : Uuid → Exn → Action (Unit {0})
  after_failure i Exn.telegram_forbidden = modify_session (set_user i blocked)
  after_failure i _ = pure tt

  unfoldable pub notify_unless : Bool → Text → User → Action (Unit {0})
  unfolding after_failure
  notify_unless true text u = pure tt
  notify_unless false text u =
      catch (call_telegram o (Call.send_message u.telegram_id text)) (after_failure u.id)

  unfoldable pub notify_owner : Text → Option User → Action (Unit {0})
  unfolding notify_unless
  notify_owner text none = pure tt
  notify_owner text (some u) = notify_unless u.is_bot_blocked text u

  -- One round of a loop; the users are those of the session.
  unfoldable pub notify_of : Text → Subscription → Action (Unit {0})
  unfolding notify_owner
  notify_of text r = do u ← gets (λ s. find (user_has_id r.user_id) s.users); notify_owner text u

  unfoldable pub notify_all : Text → List Subscription → Action (Unit {0})
  unfolding notify_of
  notify_all text [] = pure tt
  notify_all text (r ∷ rs) = do notify_of text r; notify_all text rs

  unfoldable pub send_expiry_notifications : Action (Unit {0})
  unfolding notify_all
  send_expiry_notifications = do
    now ← gets o.utcnow
    ending ← gets (λ s. select (ends_soon now) s.subscriptions)
    notify_all Text.expiry_warning ending
    using ← gets (λ s. select is_nearly_used s.subscriptions)
    notify_all Text.volume_warning using
