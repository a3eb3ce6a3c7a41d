-- ===== src/MyConfigs/Ownership.antt =====
-- The actions of apps/bot/handlers/user/my_configs.py on other users' rows.
use marzbot.Base.{ℕ, ◌≡◌, ◌≢◌, refl, sym, ap, ◌∙◌, ◌&&◌, Option, none, some, arith, ◌==◌}
use marzbot.Base.Table.{find}
use mathlib.Core.Option.{some-injective}
use marzbot.Models.{Uuid, User, Subscription}
use marzbot.Session.{
  Session, Outside, Action, Call, Reply, answer, failure, log, proceed, replied, final,
}
use marzbot.Provisioning.Refund.{belongs_to, subscription_has_id, is_pending_activation}
use marzbot.Purchase.{get_by_telegram_id}
use marzbot.Sync.{is_live}
use marzbot.MyConfigs.{
  owned, place_of, reset_owned, reset_uuid_handler, toggle_owned, toggle_enable_handler,
}
use marzbot.MyConfigs.Rows.{owned_rows}
use marzbot.MyConfigs.Sparing.{Spares, Spares-refl, Spares-trans}
use marzbot.MyConfigs.Usage.{
  view_owned, my_config_detail_handler, refresh_owned, refresh_usage_handler, view_found-Spares,
  refresh-Spares,
}
use marzbot.MyConfigs.Ending.{
  cancel_owned, cancel_and_refund_config, delete_owned, delete_expired_config,
}
use marzbot.MyConfigs.Parts.{
  reset_placed-Spares, toggle_placed-Spares, cancel_if-Spares, drop_client-Spares, ends,
}

-- The `action` of `MyConfigCallback`. Two more lead elsewhere: `renew` to the dialogue of a renewal
-- (apps/bot/handlers/user/renewal.py), whose first message writes no row, and the way back to the list.
pub data ConfigAction : Type 0 where
  view refresh_usage reset_uuid toggle_enable cancel_refund delete : ConfigAction

-- The router's filters.
unfoldable pub dispatch : Outside → ConfigAction → ℕ → Uuid → Action (Unit {0})
dispatch o ConfigAction.view telegram_id i = my_config_detail_handler o telegram_id i
dispatch o ConfigAction.refresh_usage telegram_id i = refresh_usage_handler o telegram_id i
dispatch o ConfigAction.reset_uuid telegram_id i = reset_uuid_handler o telegram_id i
dispatch o ConfigAction.toggle_enable telegram_id i = toggle_enable_handler o telegram_id i
dispatch o ConfigAction.cancel_refund telegram_id i = cancel_and_refund_config o telegram_id i
dispatch o ConfigAction.delete telegram_id i = delete_expired_config o telegram_id i

-- The user `x` is neither the one who asks nor the owner of what was found.
abbrev AreOthers : Uuid → Option (User × Subscription) → Type 0
AreOthers x none = Unit
AreOthers x (some (u, r)) = (x ≢ u.id) × (x ≢ r.user_id)

owned-AreOthers :
    (telegram_id : ℕ) (i : Uuid) (s : Session) (u : User) (x : Uuid)
    → get_by_telegram_id telegram_id s ≡ some u
    → x ≢ u.id
    → (m : Option (User × Subscription)) → owned telegram_id i s ≡ m
    → AreOthers x m
owned-AreOthers telegram_id i s u x known ne none e = tt
owned-AreOthers telegram_id i s u x known ne (some (u', r)) e =
    let (same_id, same_user, here, known') = owned_rows telegram_id i s u' r e in
    let same : u' ≡ u = some-injective _ _ (sym known' ∙ known) in
    let own : u'.id ≡ u.id = ap (λ (y : User). y.id) same in (ground arith, ground arith)

module _ (o : Outside) (x : Uuid) where
  reset_owned-Spares :
      (m : Option (User × Subscription)) (s : Session)
      → AreOthers x m
      → Spares x s (final (reset_owned o m s))
  unfolding reset_owned
  reset_owned-Spares none s h = Spares-refl x s
  reset_owned-Spares (some (u, r)) s h =
      reset_placed-Spares o x r (h.1) (is_live r.status) (place_of r.id s) s

  toggle_owned-Spares :
      (m : Option (User × Subscription)) (s : Session)
      → AreOthers x m
      → Spares x s (final (toggle_owned o m s))
  unfolding toggle_owned
  toggle_owned-Spares none s h = Spares-refl x s
  toggle_owned-Spares (some (u, r)) s h =
      toggle_placed-Spares o x r (h.1) (is_live r.status) (place_of r.id s) s

  cancel_owned-Spares :
      (m : Option (User × Subscription)) (s : Session)
      → AreOthers x m
      → Spares x s (final (cancel_owned o m s))
  unfolding cancel_owned
  cancel_owned-Spares none s h = Spares-refl x s
  cancel_owned-Spares (some (u, r)) s h =
      cancel_if-Spares o x r (h.1) (is_pending_activation r.status && r.used_bytes == 0) u.id s
        (h.0)

  delete_owned-Spares :
      (m : Option (User × Subscription)) (s : Session)
      → AreOthers x m
      → Spares x s (final (delete_owned o m s))
  unfolding delete_owned
  delete_owned-Spares none s h = Spares-refl x s
  delete_owned-Spares (some (u, r)) s h =
      grind (arith, drop_client-Spares o x r (h.1), ends o x r (h.1), Spares-trans)

-- What follows the answer to the click spares a user whom it spares once it is answered.
answered-Spares :
    (x : Uuid) (s : Session) (reply : Reply (Unit {0})) (rest : Action (Unit {0}))
    → Spares x (log Call.answer_callback s) (final (rest (log Call.answer_callback s)))
    → Spares x s (final (proceed (replied reply (log Call.answer_callback s)) (λ a. rest)))
answered-Spares x s (answer a) rest h = record {
  subscriptions = h.subscriptions;
  wallet = h.wallet;
}
answered-Spares x s (failure e) rest h = record { subscriptions = λ j. refl; wallet = refl }

-- By its id alone a query finds the subscription that was found.
abbrev IsKeyed : Option (User × Subscription) → Session → Type 0
IsKeyed none s = Unit
IsKeyed (some (u, r)) s = find (subscription_has_id r.id) s.subscriptions ≡ some r

owned-IsKeyed :
    (telegram_id : ℕ) (i : Uuid) (s : Session)
    → ((j : Uuid)
        → (r : Subscription) → find (belongs_to i j) s.subscriptions ≡ some r
        → find (subscription_has_id i) s.subscriptions ≡ some r)
    → (m : Option (User × Subscription)) → owned telegram_id i s ≡ m
    → IsKeyed m s
owned-IsKeyed telegram_id i s keys none e = tt
owned-IsKeyed telegram_id i s keys (some (u, r)) e =
    let (same_id, same_user, here, known) = owned_rows telegram_id i s u r e in
    let here' : find (belongs_to i r.user_id) s.subscriptions ≡ some r =
      ap (λ (k : Uuid). find (belongs_to k r.user_id) s.subscriptions) (sym same_id) ∙ here in
    ap (λ (k : Uuid). find (subscription_has_id k) s.subscriptions) same_id ∙ keys r.user_id r here'

module _ (o : Outside) (x : Uuid) where
  view_owned-Spares :
      (telegram_id : ℕ) (m : Option (User × Subscription)) (s : Session)
      → AreOthers x m
      → IsKeyed m s
      → Spares x s (final (view_owned o telegram_id m s))
  unfolding view_owned
  view_owned-Spares telegram_id none s h k = Spares-refl x s
  view_owned-Spares telegram_id (some (u, r)) s h k = view_found-Spares o x telegram_id r s k (h.1)

  refresh_owned-Spares :
      (m : Option (User × Subscription)) (s : Session)
      → AreOthers x m
      → IsKeyed m s
      → Spares x s (final (refresh_owned o m s))
  unfolding refresh_owned
  refresh_owned-Spares none s h k = Spares-refl x s
  refresh_owned-Spares (some (u, r)) s h k = refresh-Spares o x r s k (h.1)

-- If the id asked for tells the subscriptions apart, an action of one user on it, the views that read
-- the usage from the panel included, leaves the subscriptions and the wallet of every other user as
-- they were, however it ends.
pub dispatch-Spares :
    (o : Outside) (a : ConfigAction) (telegram_id : ℕ) (i : Uuid) (s : Session) (u : User)
    (x : Uuid)
    → get_by_telegram_id telegram_id s ≡ some u
    → x ≢ u.id
    → ((j : Uuid)
        → (r : Subscription) → find (belongs_to i j) s.subscriptions ≡ some r
        → find (subscription_has_id i) s.subscriptions ≡ some r)
    → Spares x s (final (dispatch o a telegram_id i s))
unfolding dispatch my_config_detail_handler refresh_usage_handler reset_uuid_handler
    toggle_enable_handler cancel_and_refund_config delete_expired_config
dispatch-Spares o a telegram_id i s u x known ne keys =
    dispatched a (owned telegram_id i (log Call.answer_callback s)) refl
  where
    dispatched :
        (a : ConfigAction) (m : Option (User × Subscription))
        → owned telegram_id i (log Call.answer_callback s) ≡ m
        → Spares x s (final (dispatch o a telegram_id i s))
    dispatched ConfigAction.view m e =
        answered-Spares x s (o.telegram s Call.answer_callback)
          (λ t. view_owned o telegram_id (owned telegram_id i t) t)
          (rw e (
            view_owned-Spares o x telegram_id m (log Call.answer_callback s)
              (owned-AreOthers telegram_id i (log Call.answer_callback s) u x known ne m e)
              (owned-IsKeyed telegram_id i (log Call.answer_callback s) keys m e)))
    dispatched ConfigAction.refresh_usage m e =
        answered-Spares x s (o.telegram s Call.answer_callback)
          (λ t. refresh_owned o (owned telegram_id i t) t)
          (rw e (
            refresh_owned-Spares o x m (log Call.answer_callback s)
              (owned-AreOthers telegram_id i (log Call.answer_callback s) u x known ne m e)
              (owned-IsKeyed telegram_id i (log Call.answer_callback s) keys m e)))
    dispatched ConfigAction.reset_uuid m e =
        answered-Spares x s (o.telegram s Call.answer_callback)
          (λ t. reset_owned o (owned telegram_id i t) t)
          (rw e (
            reset_owned-Spares o x m (log Call.answer_callback s)
              (owned-AreOthers telegram_id i (log Call.answer_callback s) u x known ne m e)))
    dispatched ConfigAction.toggle_enable m e =
        answered-Spares x s (o.telegram s Call.answer_callback)
          (λ t. toggle_owned o (owned telegram_id i t) t)
          (rw e (
            toggle_owned-Spares o x m (log Call.answer_callback s)
              (owned-AreOthers telegram_id i (log Call.answer_callback s) u x known ne m e)))
    dispatched ConfigAction.cancel_refund m e =
        answered-Spares x s (o.telegram s Call.answer_callback)
          (λ t. cancel_owned o (owned telegram_id i t) t)
          (rw e (
            cancel_owned-Spares o x m (log Call.answer_callback s)
              (owned-AreOthers telegram_id i (log Call.answer_callback s) u x known ne m e)))
    dispatched ConfigAction.delete m e =
        answered-Spares x s (o.telegram s Call.answer_callback)
          (λ t. delete_owned o (owned telegram_id i t) t)
          (rw e (
            delete_owned-Spares o x m (log Call.answer_callback s)
              (owned-AreOthers telegram_id i (log Call.answer_callback s) u x known ne m e)))
