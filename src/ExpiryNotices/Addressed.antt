-- ===== src/ExpiryNotices/Addressed.antt =====
-- Whom the notices (apps/worker/jobs/expiry_notifications.py) go to.
use marzbot.Base.{
  ◌≡◌, refl, ap, ◌∙◌, sym, Bool, true, false, Option, none, some, List, [], ◌∷◌, ◌++◌, arith, All,
  Bool-cases, inl, inr, ◌⊎◌, ◌<◌, ◌≤◌, ◌+◌, ◌*◌,
}
use mathlib.Core.Path.{subst}
use mathlib.Core.List.{append_assoc}
use marzbot.Base.Table.{find, select, modify}
use marzbot.Models.{Uuid, Time, User, Subscription, active}
use marzbot.Session.{
  Session, Outside, Reply, Call, Text, Exn, Run, ok, answer, failure, log, proceed, handle, replied,
}
use marzbot.Accounts.{user_has_id, set_user}
use marzbot.Support.{blocked}
use marzbot.ExpiryNotices.{
  ends_soon, is_nearly_used, after_failure, notify_unless, notify_owner, notify_of, notify_all,
  send_expiry_notifications,
}

-- Users are at most marked as having blocked the bot: one who is not is as before.
unfoldable pub IsUnblocked : Session → Session → Type 0
IsUnblocked s t =
    (i : Uuid) (u : User)
    → find (user_has_id i) t.users ≡ some u
    → u.is_bot_blocked ≡ false
    → find (user_has_id i) s.users ≡ some u

-- A call that tells the owner of a subscription, one that passes `p` and whose owner has not
-- blocked the bot.
abbrev pub IsNotice : (Subscription → Type 0) → Session → Call → Type 0
IsNotice p s c =
    (r : Subscription) × (u : User) × (text : Text) × p r
    × (find (user_has_id r.user_id) s.users ≡ some u)
    × (u.is_bot_blocked ≡ false)
    × (c ≡ Call.send_message u.telegram_id text)

-- The run ends normally, with nothing changed but users and calls, and every call a notice.
pub record Tells (p : Subscription → Type 0) (s : Session) (run : Run (Unit {0})) : Type 0 where
  pub left : Session
  pub ends : run ≡ ok tt left
  pub rows : left ≡ record s { users = left.users; calls = left.calls }
  pub users : IsUnblocked s left
  pub new_calls : List Call
  pub calls : left.calls ≡ new_calls ++ s.calls
  pub notices : All (IsNotice p s) new_calls

blocked_rows :
    (i k : Uuid) (u : User) (us : List User)
    → find (user_has_id k) (modify (user_has_id i) blocked us) ≡ some u
    → u.is_bot_blocked ≡ false
    → find (user_has_id k) us ≡ some u
blocked_rows i k u [] e free = e
blocked_rows i k u (x ∷ us) e free = ground (arith, blocked_rows i k u us)

blocks : (i : Uuid) (s : Session) → IsUnblocked s (set_user i blocked s)
unfolding IsUnblocked
blocks i s k u e free = blocked_rows i k u s.users e free

renoticed :
    (p : Subscription → Type 0) (s t : Session)
    → IsUnblocked s t
    → (cs : List Call) → All (IsNotice p t) cs
    → All (IsNotice p s) cs
unfolding IsUnblocked
renoticed p s t h [] all = tt
renoticed p s t h (c ∷ cs) ((r, u, text, e, found, free, same), all) =
    ((r, u, text, e, h r.user_id u found free, free, same), renoticed p s t h cs all)

All-append : {A : Type 0} (P : A → Type 0) (xs ys : List A) → All P xs → All P ys → All P (xs ++ ys)
All-append P [] ys h k = k
All-append P (x ∷ xs) ys h k = (h.0, All-append P xs ys h.1 k)

proceed-Tells :
    (p : Subscription → Type 0) (s : Session) (run : Run (Unit {0}))
    (next : Session → Run (Unit {0}))
    → Tells p s run
    → ((t : Session) → t.subscriptions ≡ s.subscriptions → Tells p t (next t))
    → Tells p s (proceed run (λ a. next))
unfolding IsUnblocked
proceed-Tells p s run next h k =
    let j = k h.left (ap (λ (v : Session). v.subscriptions) h.rows) in
    record {
      left = j.left;
      ends = rw (h.ends) (j.ends);
      rows =
          j.rows
          ∙ ap (λ (v : Session). record v { users = j.left.users; calls = j.left.calls }) h.rows;
      users = λ i u e free. h.users i u (j.users i u e free) free;
      new_calls = j.new_calls ++ h.new_calls;
      calls =
          j.calls
          ∙ ap (λ (cs : List Call). j.new_calls ++ cs) h.calls
          ∙ sym (append_assoc j.new_calls h.new_calls s.calls);
      notices =
          All-append (IsNotice p s) j.new_calls h.new_calls
            (renoticed p s h.left h.users j.new_calls j.notices) h.notices;
    }

module _ (o : Outside) (p : Subscription → Type 0) where
  nothing_told : (s : Session) → Tells p s (ok tt s)
  unfolding IsUnblocked
  nothing_told s = record {
    left = s;
    ends = refl;
    rows = refl;
    users = λ i u e free. e;
    new_calls = [];
    calls = refl;
    notices = tt;
  }

  notify_of-Tells :
      (text : Text) (r : Subscription) (s : Session) → p r → Tells p s (notify_of o text r s)
  unfolding notify_of notify_owner notify_unless after_failure IsUnblocked
  notify_of-Tells text r s e = for_owner (find (user_has_id r.user_id) s.users) refl
    where
      sent :
          (u : User) (us : List User)
          → find (user_has_id r.user_id) s.users ≡ some u
          → u.is_bot_blocked ≡ false
          → IsUnblocked s (record s { users = us })
          → Tells p s (ok tt (log (Call.send_message u.telegram_id text) (record s { users = us })))
      sent u us found free kept = record {
        left = log (Call.send_message u.telegram_id text) (record s { users = us });
        ends = refl;
        rows = refl;
        users = kept;
        new_calls = Call.send_message u.telegram_id text ∷ [];
        calls = refl;
        notices = ((r, u, text, e, found, free, refl), tt);
      }

      by_reply :
          (u : User) (reply : Reply (Unit {0}))
          → find (user_has_id r.user_id) s.users ≡ some u
          → u.is_bot_blocked ≡ false
          → Tells p s (
              handle
                (replied reply (log (Call.send_message u.telegram_id text) s))
                (after_failure o u.id))
      by_reply u (answer a) found free = sent u s.users found free (λ i v h g. h)
      by_reply u (failure Exn.telegram_forbidden) found free =
          sent u (modify (user_has_id u.id) blocked s.users) found free (blocks u.id s)
      by_reply u (failure x) found free = sent u s.users found free (λ i v h g. h)

      for_owner :
          (w : Option User)
          → find (user_has_id r.user_id) s.users ≡ w
          → Tells p s (notify_owner o text w s)
      for_owner none found = nothing_told s
      for_owner (some u) found = elim (Bool-cases u.is_bot_blocked) [
        | inl b ↦ rw b (nothing_told s)
        | inr b ↦ rw b (by_reply u (o.telegram s (Call.send_message u.telegram_id text)) found b)
      ]

  notify_all-Tells :
      (text : Text) (rs : List Subscription) (s : Session)
      → All p rs
      → Tells p s (notify_all o text rs s)
  unfolding notify_all
  notify_all-Tells text [] s all = nothing_told s
  notify_all-Tells text (r ∷ rs) s all =
      proceed-Tells p s (notify_of o text r s) (notify_all o text rs)
        (notify_of-Tells text r s all.0) (λ t e. notify_all-Tells text rs t all.1)

-- A row of a table.
abbrev pub IsIn : Subscription → List Subscription → Type 0
IsIn r [] = ⊥
IsIn r (x ∷ xs) = (x ≡ r) ⊎ IsIn r xs

-- A subscription that is due a notice: it is active, and ends within a day or has nine tenths of a
-- volume used.
abbrev pub IsDue : Time → Subscription → Type 0
IsDue now r =
    (r.status ≡ active)
    × (((e : Time) × (r.ends_at ≡ some e) × (now < e) × (e ≤ now + 86400))
        ⊎ ((0 < r.volume_bytes) × (r.volume_bytes * 9 ≤ r.used_bytes * 10)))

-- Such a row of the session at the start.
abbrev pub IsDueRow : Time → Session → Subscription → Type 0
IsDueRow now s r = IsIn r s.subscriptions × IsDue now r

ends_soon-IsDue : (now : Time) (r : Subscription) → ends_soon now r ≡ true → IsDue now r
ends_soon-IsDue now r e = for_end r.ends_at refl
  where
    for_end : (end : Option Time) → r.ends_at ≡ end → IsDue now r
    for_end none same = ground arith
    for_end (some t) same = (ground arith, inl (t, same, ground arith, ground arith))

is_nearly_used-IsDue : (now : Time) (r : Subscription) → is_nearly_used r ≡ true → IsDue now r
is_nearly_used-IsDue now r e = (ground arith, inr (ground arith, ground arith))

selected :
    (p : Subscription → Bool) (now : Time) (s : Session)
    → ((r : Subscription) → p r ≡ true → IsDue now r)
    → (xs : List Subscription) → ((r : Subscription) → IsIn r xs → IsIn r s.subscriptions)
    → All (IsDueRow now s) (select p xs)
selected p now s h [] within = tt
selected p now s h (x ∷ xs) within = elim (Bool-cases (p x)) [
  | inl e ↦ rw e ((within x (inl refl), h x e), selected p now s h xs (λ r k. within r (inr k)))
  | inr e ↦ rw e (selected p now s h xs (λ r k. within r (inr k)))
]

module _ (o : Outside) where
  -- The job ends normally, whatever Telegram answers, and changes nothing but the marks of users
  -- who have blocked the bot. It writes to nobody but the owner, not marked so at the start, of an
  -- active subscription of the session that ends within a day or has nine tenths of its volume used.
  pub send_expiry_notifications-Tells :
      (s : Session) → Tells (IsDueRow (o.utcnow s) s) s (send_expiry_notifications o s)
  unfolding send_expiry_notifications
  send_expiry_notifications-Tells s =
      let now = o.utcnow s in
      let p = IsDueRow now s in
      proceed-Tells p s
        (notify_all o Text.expiry_warning (select (ends_soon now) s.subscriptions) s)
        (λ t. notify_all o Text.volume_warning (select is_nearly_used t.subscriptions) t)
        (notify_all-Tells o p Text.expiry_warning (select (ends_soon now) s.subscriptions) s
          (selected (ends_soon now) now s (ends_soon-IsDue now) s.subscriptions (λ r k. k)))
        (λ t e. notify_all-Tells o p Text.volume_warning (select is_nearly_used t.subscriptions) t (
          selected is_nearly_used now s (is_nearly_used-IsDue now) t.subscriptions
            (λ r k. subst (IsIn r) e k)))
