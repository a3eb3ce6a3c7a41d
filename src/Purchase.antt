-- ===== src/Purchase.antt =====
-- apps/bot/handlers/user/purchase.py: paying a plan from the wallet. The texts that
-- `safe_edit_or_send` shows are left out: it raises nothing and changes no row.
pub mod Finalize
pub mod Stages
pub mod Messages
pub mod Outcome
pub mod Gateway
pub mod Dialogue
use marzbot.Base.{ℕ, Bool, true, false, ◌||◌, not, Option, none, some, ◌==◌, if◌then◌else◌, get_or}
use marzbot.Base.Int.{ℤ, ltb_ℤ}
use marzbot.Base.Text.{codes}
use marzbot.Base.Table.{find}
use marzbot.Models.{Uuid, Str, Plan, User, Wallet, DiscountCode}
use marzbot.Session.{
  Session, Action, Exn, Outside, Call, State, Fsm, pure, catch, gets, or_raise, call_telegram,
  clear_state, set_state, ◌>>=◌, ◌>>◌,
}
use marzbot.Pricing.{final_price}
use marzbot.Discount.{has_id, use_code}
use marzbot.Wallet.{get_by_user_id}
use marzbot.Provisioning.{plan_has_id, usable_plan}
use marzbot.Purchase.Finalize.{finalize_purchase}

abbrev pub has_telegram_id : ℕ → User → Bool
has_telegram_id i u = u.telegram_id == i

-- `UserRepository.get_by_telegram_id`
abbrev pub get_by_telegram_id : ℕ → Session → Option User
get_by_telegram_id i s = find (has_telegram_id i) s.users

-- The user, the wallet as it is now, and the plan; `none` unless all are there and the plan is active.
abbrev pub all_there : Option User → Session → Option Plan → Option (User × Wallet × Plan)
all_there none s p = none
all_there (some u) s none = none
all_there (some u) s (some p) = elim (get_by_user_id u.id s) [
  | none ↦ none
  | some w ↦ some (u, w, p)
]

unfoldable pub load : ℕ → Uuid → Session → Option (User × Wallet × Plan)
load telegram_id plan_id s =
    all_there (get_by_telegram_id telegram_id s) s
      (usable_plan (find (plan_has_id plan_id) s.plans))

-- `if discount_id: dc = …; if dc: use_code(dc)`
unfoldable pub spend_discount : Option Uuid → Action (Unit {0})
spend_discount none = pure tt
spend_discount (some i) = do
  found ← gets (λ s. find (has_id i) s.discounts)
  elim found [ none ↦ pure tt | some dc ↦ use_code dc ]

module _ (o : Outside) where
  unfoldable pub buy : ℕ → Fsm → User × Wallet × Plan → Action (Unit {0})
  unfolding spend_discount
  buy telegram_id fsm (user, wallet, plan) =
      let price = final_price plan.price (get_or fsm.discount_percent 0) in
      elim (ltb_ℤ wallet.balance price) [
        | true ↦ pure tt
        | false ↦
            spend_discount fsm.discount_id
            >> finalize_purchase o telegram_id user plan price
                (get_or fsm.config_name (codes "VPN"))
      ]

  -- `_process_wallet_purchase`
  unfoldable pub process_wallet_purchase : ℕ → Action (Unit {0})
  unfolding buy load
  process_wallet_purchase telegram_id = do
    fsm ← gets (λ s. s.fsm)
    clear_state
    plan_id ← or_raise fsm.plan_id Exn.key_error
    found ← gets (load telegram_id plan_id)
    elim found [ none ↦ pure tt | some loaded ↦ buy telegram_id fsm loaded ]

  abbrev pub is_processing : State → Bool
  is_processing State.purchase_processing = true
  is_processing _ = false

  -- `pay_with_wallet`. A second click finds the state set and returns once it is answered.
  unfoldable pub pay_with_wallet : ℕ → Action (Unit {0})
  pay_with_wallet telegram_id = do
    call_telegram o Call.answer_callback
    busy ← gets (λ s. is_processing s.fsm.state)
    elim busy [
      | true ↦ pure tt
      | false ↦
          set_state State.purchase_processing
          >> call_telegram o (Call.send_chat_action telegram_id)
          >> catch (process_wallet_purchase telegram_id) (λ e. clear_state)
    ]
