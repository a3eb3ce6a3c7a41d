-- ===== src/Purchase/Dialogue/Kept.antt =====
-- The handlers of a purchase from the wallet leave the conversation's data alone.
use marzbot.Base.{ℕ, ◌≡◌, get_or, refl, ap, ◌∙◌, Bool, true, false, Option, none, some, arith}
use marzbot.Base.Int.{ℤ, ltb_ℤ}
use marzbot.Pricing.{final_price}
use marzbot.Base.Text.{codes}
use marzbot.Models.{Uuid, Str, Plan, User, Wallet, XuiInboundRecord, failed, provisioned}
use marzbot.Session.{
  Session, Run, ok, err, Exn, Call, Text, is_insufficient_balance, is_provisioning_error, handle,
  pure, gets, or_raise, ◌>>=◌, ◌>>◌, rethrow, proceed, call_panel, call_telegram, Outside, Action,
  Fsm, final, nested, cleared,
}
use marzbot.Wallet.{Request, process_transaction, transact, post}
use marzbot.Provisioning.{
  ProvisioningResult, provision_subscription, choose_inbound, record_client, insert_client,
  set_order_status,
}
use marzbot.Provisioning.Identity.{ClientIdentity, generate_unique_client_identity}
use marzbot.Provisioning.Checks.{final-choose_inbound, generate_unique_client_identity-OnlyDraws}
use marzbot.Discount.{use_code}
use marzbot.Purchase.{buy, load, spend_discount, process_wallet_purchase}
use marzbot.Notifications.{notify_admins}
use marzbot.Notifications.Silent.{notify_admins-OnlyCalls}
use marzbot.Purchase.Finalize.{
  charge, mark, refund, provision_or_refund, send_qr, announce, place_order, finalize_purchase,
}

-- The run leaves the conversation as it was.
pub data Keeps {A : Type 0} (s : Session) (run : Run A) : Type 0 where
  kept : (final run).fsm ≡ s.fsm → Keeps s run

abbrev pub fsm_kept :
    {A : Type 0} (s : Session) (run : Run A) → Keeps s run → (final run).fsm ≡ s.fsm
fsm_kept s run (kept e) = e

module _ {A : Type 0} where
  handle-Keeps :
      (run : Run A) (h : Exn → Action A) (s : Session)
      → Keeps s run
      → ((e : Exn) (t : Session) → Keeps t (h e t))
      → Keeps s (handle run h)
  handle-Keeps (ok a t) h s k g = k
  handle-Keeps (err e t) h s (kept k) g = kept (fsm_kept t (h e t) (g e t) ∙ k)

  rethrow-Keeps :
      (b : Bool) (e : Exn) (h : Exn → Action A) (s : Session)
      → ((x : Exn) (t : Session) → Keeps t (h x t))
      → Keeps s (rethrow b e h s)
  rethrow-Keeps true e h s g = g e s
  rethrow-Keeps false e h s g = kept refl

  proceed-Keeps :
      {B : Type 0} (run : Run A) (f : A → Action B) (s : Session)
      → Keeps s run
      → ((a : A) (t : Session) → Keeps t (f a t))
      → Keeps s (proceed run f)
  proceed-Keeps (ok a t) f s (kept k) g = kept (fsm_kept t (f a t) (g a t) ∙ k)
  proceed-Keeps (err e t) f s (kept k) g = kept k

process_transaction-fsm :
    (q : Request) (s : Session) → (final (process_transaction q s)).fsm ≡ s.fsm
unfolding process_transaction nested transact post
process_transaction-fsm q s = ground arith

process_transaction-Keeps : (q : Request) (s : Session) → Keeps s (process_transaction q s)
process_transaction-Keeps q s = kept (process_transaction-fsm q s)

module _ (o : Outside) where
  record_client-fsm :
      (user_id plan_id order_id : Uuid) (plan : Plan) (inbound : XuiInboundRecord)
      (who : ClientIdentity) (name email link : Str) (s : Session)
      → (final (record_client o user_id plan_id order_id plan inbound who name email link s)).fsm
        ≡ s.fsm
  unfolding record_client insert_client set_order_status
  record_client-fsm user_id plan_id order_id plan inbound who name email link s = ground arith

module _ (o : Outside) where
  call_telegram-Keeps : (c : Call) (s : Session) → Keeps s (call_telegram o c s)
  call_telegram-Keeps c s = kept (ground arith)

  call_panel-Keeps : (c : Call) (s : Session) → Keeps s (call_panel o c s)
  call_panel-Keeps c s = kept (ground arith)

  choose_inbound-Keeps :
      (user_id plan_id order_id : Uuid) (s : Session)
      → Keeps s (choose_inbound user_id plan_id order_id s)
  choose_inbound-Keeps user_id plan_id order_id s =
      kept (ap (λ (t : Session). t.fsm) (final-choose_inbound user_id plan_id order_id s))

  identity-Keeps : (s : Session) → Keeps s (generate_unique_client_identity o s)
  identity-Keeps s =
      kept (ap (λ (t : Session). t.fsm) (generate_unique_client_identity-OnlyDraws o s))

  record_client-Keeps :
      (user_id plan_id order_id : Uuid) (plan : Plan) (inbound : XuiInboundRecord)
      (who : ClientIdentity) (name email link : Str) (s : Session)
      → Keeps s (record_client o user_id plan_id order_id plan inbound who name email link s)
  record_client-Keeps user_id plan_id order_id plan inbound who name email link s =
      kept (record_client-fsm o user_id plan_id order_id plan inbound who name email link s)

  notify_admins-Keeps : (text : Text) (s : Session) → Keeps s (notify_admins o text s)
  notify_admins-Keeps text s = kept (ap (λ (t : Session). t.fsm) (notify_admins-OnlyCalls o text s))

  provision_subscription-Keeps :
      (user_id plan_id order_id : Uuid) (name : Str) (s : Session)
      → Keeps s (provision_subscription o user_id plan_id order_id name s)
  unfolding provision_subscription
  provision_subscription-Keeps user_id plan_id order_id name s =
      proceed-Keeps _ _ s (choose_inbound-Keeps user_id plan_id order_id s)
        (λ (plan, inbound, server) t. proceed-Keeps _ _ t (identity-Keeps t) (λ who t'.
          proceed-Keeps _ _ t' (call_panel-Keeps _ t')
            (λ x t''. record_client-Keeps user_id plan_id order_id plan inbound who name _ _ t'')))

  charge-Keeps :
      (chat : ℕ) (user : User) (plan : Plan) (price : ℤ) (i : Uuid) (s : Session)
      → Keeps s (charge o chat user plan price i s)
  unfolding charge set_order_status
  charge-Keeps chat user plan price i s =
      handle-Keeps _ _ s (proceed-Keeps _ _ s (process_transaction-Keeps _ s) (λ x t. kept refl))
        (λ e t. rethrow-Keeps (is_insufficient_balance e) e _ t (λ x v.
          proceed-Keeps (mark i failed v) _ v (kept refl) (λ y w.
            proceed-Keeps _ (λ z. pure false) w
              (call_telegram-Keeps (Call.send_message chat Text.balance_not_sufficient_anymore) w)
              (λ z w'. kept refl))))

  refund-Keeps :
      (user : User) (plan : Plan) (price : ℤ) (i : Uuid) (s : Session)
      → Keeps s (refund o user plan price i s)
  unfolding refund set_order_status
  refund-Keeps user plan price i s =
      handle-Keeps _ _ s (proceed-Keeps _ _ s (process_transaction-Keeps _ s) (λ x t. kept refl))
        (λ e t. kept refl)

  provision_or_refund-Keeps :
      (chat : ℕ) (user : User) (plan : Plan) (price : ℤ) (name : Str) (i : Uuid) (s : Session)
      → Keeps s (provision_or_refund o chat user plan price name i s)
  unfolding provision_or_refund
  provision_or_refund-Keeps chat user plan price name i s =
      handle-Keeps _ _ s
        (proceed-Keeps _ _ s (provision_subscription-Keeps user.id plan.id i name s)
          (λ x t. kept refl))
        (λ e t. rethrow-Keeps (is_provisioning_error e) e _ t (λ x v.
          proceed-Keeps _ _ v (refund-Keeps user plan price i v)
            (λ y w. proceed-Keeps _ _ w (call_telegram-Keeps _ w) (λ z w'. kept refl))))

  send_qr-Keeps : (chat : ℕ) (s : Session) → Keeps s (send_qr o chat s)
  unfolding send_qr
  send_qr-Keeps chat s = kept (ground arith)

  announce-Keeps : (chat : ℕ) (s : Session) → Keeps s (announce o chat s)
  unfolding announce
  announce-Keeps chat s = proceed-Keeps _ _ s (call_telegram-Keeps _ s) (λ x t.
      proceed-Keeps _ _ t (send_qr-Keeps chat t) (λ y v. notify_admins-Keeps Text.admin_notice v))

  abbrev delivered : ℕ → Uuid → Option ProvisioningResult → Action (Unit {0})
  delivered chat i done = elim done [
    | none ↦ pure tt
    | some config ↦ mark i provisioned >> announce o chat
  ]

  delivered-Keeps :
      (chat : ℕ) (i : Uuid) (done : Option ProvisioningResult) (s : Session)
      → Keeps s (delivered chat i done s)
  unfolding set_order_status
  delivered-Keeps chat i none s = kept refl
  delivered-Keeps chat i (some config) s =
      proceed-Keeps (mark i provisioned s) (λ x. announce o chat) s (kept refl)
        (λ x t. announce-Keeps chat t)

  abbrev charged : ℕ → User → Plan → ℤ → Str → Uuid → Bool → Action (Unit {0})
  charged chat user plan price name i b = elim b [
    | false ↦ pure tt
    | true ↦ provision_or_refund o chat user plan price name i >>= delivered chat i
  ]

  charged-Keeps :
      (chat : ℕ) (user : User) (plan : Plan) (price : ℤ) (name : Str) (i : Uuid) (b : Bool)
      (s : Session)
      → Keeps s (charged chat user plan price name i b s)
  charged-Keeps chat user plan price name i false s = kept refl
  charged-Keeps chat user plan price name i true s =
      proceed-Keeps (provision_or_refund o chat user plan price name i s) (delivered chat i) s
        (provision_or_refund-Keeps chat user plan price name i s) (delivered-Keeps chat i)

  finalize_purchase-Keeps :
      (chat : ℕ) (user : User) (plan : Plan) (price : ℤ) (name : Str) (s : Session)
      → Keeps s (finalize_purchase o chat user plan price name s)
  unfolding finalize_purchase place_order
  finalize_purchase-Keeps chat user plan price name s =
      proceed-Keeps (place_order o user plan "bot" price s) _ s (kept refl) (λ i t.
        proceed-Keeps _ _ t (charge-Keeps chat user plan price i t)
          (charged-Keeps chat user plan price name i))

  spend_discount-Keeps : (i : Option Uuid) (s : Session) → Keeps s (spend_discount i s)
  unfolding spend_discount use_code
  spend_discount-Keeps i s = kept (ground arith)

  abbrev bought : ℕ → Fsm → User → Plan → ℤ → Bool → Action (Unit {0})
  bought telegram_id fsm user plan price b = elim b [
    | true ↦ pure tt
    | false ↦
        spend_discount fsm.discount_id
        >> finalize_purchase o telegram_id user plan price (get_or fsm.config_name (codes "VPN"))
  ]

  bought-Keeps :
      (telegram_id : ℕ) (fsm : Fsm) (user : User) (plan : Plan) (price : ℤ) (b : Bool) (s : Session)
      → Keeps s (bought telegram_id fsm user plan price b s)
  bought-Keeps telegram_id fsm user plan price true s = kept refl
  bought-Keeps telegram_id fsm user plan price false s =
      proceed-Keeps (spend_discount fsm.discount_id s) _ s (spend_discount-Keeps fsm.discount_id s)
        (λ x t.
          finalize_purchase-Keeps telegram_id user plan price (get_or fsm.config_name (codes "VPN"))
            t)

  buy-Keeps :
      (telegram_id : ℕ) (fsm : Fsm) (loaded : User × Wallet × Plan) (s : Session)
      → Keeps s (buy o telegram_id fsm loaded s)
  unfolding buy
  buy-Keeps telegram_id fsm (user, wallet, plan) s =
      let price = final_price plan.price (get_or fsm.discount_percent 0) in
      bought-Keeps telegram_id fsm user plan price (ltb_ℤ wallet.balance price) s

  abbrev found_by : ℕ → Fsm → Option (User × Wallet × Plan) → Action (Unit {0})
  found_by telegram_id fsm found = elim found [
    | none ↦ pure tt
    | some loaded ↦ buy o telegram_id fsm loaded
  ]

  found-Keeps :
      (telegram_id : ℕ) (fsm : Fsm) (found : Option (User × Wallet × Plan)) (s : Session)
      → Keeps s (found_by telegram_id fsm found s)
  found-Keeps telegram_id fsm none s = kept refl
  found-Keeps telegram_id fsm (some loaded) s = buy-Keeps telegram_id fsm loaded s

  planned-Keeps :
      (telegram_id : ℕ) (fsm : Fsm) (plan_id : Option Uuid) (s : Session)
      → Keeps s (
          proceed
            (or_raise plan_id Exn.key_error s)
            (λ i. gets (load telegram_id i) >>= found_by telegram_id fsm))
  planned-Keeps telegram_id fsm none s = kept refl
  planned-Keeps telegram_id fsm (some i) s = found-Keeps telegram_id fsm (load telegram_id i s) s

  -- Once the data are read, the conversation is over.
  pub process_wallet_purchase-cleared :
      (telegram_id : ℕ) (s : Session)
      → (final (process_wallet_purchase o telegram_id s)).fsm ≡ cleared
  unfolding process_wallet_purchase
  process_wallet_purchase-cleared telegram_id s =
      fsm_kept (record s { fsm = cleared }) _
        (planned-Keeps telegram_id s.fsm s.fsm.plan_id (record s { fsm = cleared }))
