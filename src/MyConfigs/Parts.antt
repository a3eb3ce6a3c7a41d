-- ===== src/MyConfigs/Parts.antt =====
-- What the parts of the handlers (apps/bot/handlers/user/my_configs.py) leave to other users.
use marzbot.Base.{◌≡◌, ◌≢◌, refl, ap, Bool, true, false, not, Option, none, some, List, arith}
use marzbot.Base.Table.{find, find-modify_other}
use marzbot.Models.{Uuid, Str, Order, Subscription, SubscriptionStatus}
use marzbot.Session.{Session, Run, ok, err, Outside, Action, proceed, modify_session, final}
use marzbot.Runtime.{ensure_inbound_server_loaded}
use marzbot.Base.Int.{ℤ, pos, leb_ℤ}
use marzbot.Wallet.{Request, post, process_transaction}
use marzbot.Wallet.Branches.{process_transaction-keeps}
use marzbot.Wallet.Ledger.{process_transaction-other_wallets}
use marzbot.Provisioning.{set_order_status}
use marzbot.Provisioning.Refund.{belongs_to, deactivate_client, plan_of}
use marzbot.MyConfigs.{
  Place, is_usable, place_of, change_subscription, change_client, relinked, relink, reset_at,
  reset_placed, switch, toggle_placed,
}
use marzbot.MyConfigs.Sparing.{Spares, Spares-refl, Spares-trans}
use marzbot.MyConfigs.Ending.{
  ended, order_to_refund, amount_to_refund, cancel_request, delete_from_panel, remove_usable,
  remove_client, pay_back, refund_if_removed, cancel_if, drop_client,
}

change_subscription-Spares :
    (x : Uuid) (r : Subscription) (f : Subscription → Subscription) (s : Session)
    → x ≢ r.user_id
    → ((y : Subscription) → ((f y).id ≡ y.id) × ((f y).user_id ≡ y.user_id))
    → Spares x s (change_subscription r f s)
unfolding change_subscription
change_subscription-Spares x r f s ne keeps = record {
  subscriptions = λ j.
      find-modify_other (belongs_to r.id r.user_id) (belongs_to j x) f s.subscriptions
        (λ y e. (ground arith, ground (arith, keeps y)));
  wallet = refl;
}

module _ (o : Outside) (x : Uuid) (r : Subscription) (ne : x ≢ r.user_id) where
  relinks : (link : Str) (s : Session) → Spares x s (change_subscription r (relinked link) s)
  unfolding relinked
  relinks link s = change_subscription-Spares x r (relinked link) s ne (λ y. (refl, refl))

  pub ends :
      (st : SubscriptionStatus) (s : Session) → Spares x s (change_subscription r (ended st) s)
  unfolding ended
  ends st s = change_subscription-Spares x r (ended st) s ne (λ y. (refl, refl))

  reset_at-Spares :
      (b : Bool) (place : Place) (s : Session) → Spares x s (final (reset_at o b r place s))
  unfolding reset_at relink change_client ensure_inbound_server_loaded
  reset_at-Spares b (c, n, v) s = grind (arith, relinks)

  pub reset_placed-Spares :
      (b : Bool) (place : Option Place) (s : Session)
      → Spares x s (final (reset_placed o b r place s))
  unfolding reset_placed
  reset_placed-Spares false place s = Spares-refl x s
  reset_placed-Spares true none s = Spares-refl x s
  reset_placed-Spares true (some (c, n, v)) s = reset_at-Spares (is_usable v) (c, n, v) s

  pub toggle_placed-Spares :
      (b : Bool) (place : Option Place) (s : Session)
      → Spares x s (final (toggle_placed o b r place s))
  unfolding toggle_placed switch change_client ensure_inbound_server_loaded
  toggle_placed-Spares b place s = ground arith

  remove_client-Spares :
      (i : Uuid) (place : Option Place) (s : Session)
      → Spares x s (final (remove_client o i place s))
  unfolding remove_client remove_usable delete_from_panel deactivate_client
      ensure_inbound_server_loaded
  remove_client-Spares i place s = ground arith

  pub drop_client-Spares :
      (i : Uuid) (place : Option Place) (s : Session) → Spares x s (final (drop_client o i place s))
  unfolding drop_client delete_from_panel deactivate_client ensure_inbound_server_loaded
  drop_client-Spares i place s = ground arith

  process_transaction-Spares :
      (q : Request) (s : Session) → x ≢ q.user_id → Spares x s (final (process_transaction q s))
  unfolding post
  process_transaction-Spares q s other = record {
    subscriptions = λ j.
        ap (λ (l : List Subscription). find (belongs_to j x) l)
          (process_transaction-keeps (λ t. t.subscriptions ≡ s.subscriptions) q s refl
            (λ w d found positive within. refl));
    wallet = process_transaction-other_wallets q s x other;
  }

  pay_back-Spares :
      (b : Bool) (user_id : Uuid) (order : Option Order) (amount : ℤ) (s : Session)
      → x ≢ user_id
      → Spares x s (final (pay_back b user_id r order amount s))
  unfolding pay_back cancel_request set_order_status
  pay_back-Spares b user_id order amount s other =
      grind (arith, process_transaction-Spares (cancel_request user_id r.id amount) s other)

  -- What follows a run that ends normally spares the user too.
  then-Spares :
      {A B : Type 0} (s : Session) (run : Run A) (f : A → Action B)
      → Spares x s (final run)
      → ((a : A) (t : Session) → Spares x t (final (f a t)))
      → Spares x s (final (proceed run f))
  then-Spares s (ok a t) f h k = Spares-trans x s t (final (f a t)) h (k a t)
  then-Spares s (err e t) f h k = h

  refund_if_removed-Spares :
      (b : Bool) (user_id : Uuid) (s : Session)
      → x ≢ user_id
      → Spares x s (final (refund_if_removed b user_id r s))
  unfolding refund_if_removed
  refund_if_removed-Spares false user_id s other = Spares-refl x s
  refund_if_removed-Spares true user_id s other =
      let order = order_to_refund user_id r.plan_id s in
      let amount = amount_to_refund order (plan_of r.plan_id s) in
      let paying = not (leb_ℤ amount (pos 0)) in
      then-Spares s (pay_back paying user_id r order amount s)
        (λ (a : Unit {0}).
          modify_session (change_subscription r (ended SubscriptionStatus.refunded)))
        (pay_back-Spares paying user_id order amount s other)
        (λ a t. ends SubscriptionStatus.refunded t)

  pub cancel_if-Spares :
      (b : Bool) (user_id : Uuid) (s : Session)
      → x ≢ user_id
      → Spares x s (final (cancel_if o b user_id r s))
  unfolding cancel_if
  cancel_if-Spares false user_id s other = Spares-refl x s
  cancel_if-Spares true user_id s other =
      then-Spares s (remove_client o r.id (place_of r.id s) s)
        (λ removed. refund_if_removed removed user_id r)
        (remove_client-Spares r.id (place_of r.id s) s)
        (λ removed t. refund_if_removed-Spares removed user_id t other)
