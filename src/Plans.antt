-- ===== src/Plans.antt =====
-- apps/bot/handlers/admin/plans.py: the plans that an administrator makes and changes. The lists and
-- what `safe_edit_or_send` shows are left out, as is the audit log's payload. Python's own readers and
-- writers of numbers are the record `Numbers`, without NaN and infinity; a code longer than its
-- column, which the database refuses and the handler answers, is not modelled.
pub mod Normal
pub mod Input
pub mod Dialogue
pub mod Positive
pub mod Sound
pub mod Deleted
use marzbot.Base.{
  ℕ, ◌+◌, ◌*◌, Bool, true, false, not, ◌&&◌, ◌||◌, Option, none, some, List, [], ◌∷◌, ◌++◌, map,
  take, ◌==◌, leb, is_some, get_or, if◌then◌else◌,
}
use marzbot.Base.Int.{ℤ, pos, leb_ℤ, ltb_ℤ}
use marzbot.Base.Decimal.{Decimal, quantize}
use marzbot.Base.Text.{codes, codes_eq, strip}
use marzbot.Base.Table.{find, modify, without}
use marzbot.Models.{Uuid, Str, Order, Plan, Subscription, User, XuiInboundRecord, DiscountCode}
use marzbot.Session.{
  Session, Action, Exn, Outside, Call, Text, FormState, Form, pure, draw, gets, or_raise, raise_if,
  modify_session, nested, catch_if, call_telegram, clear_form, update_form, log_action, rolled_back,
  ◌>>=◌, ◌>>◌,
}
use marzbot.Runtime.{inbound_has_id}
use marzbot.Provisioning.{plan_has_id}

-- `int(…)`, `Decimal(…)`, `unicodedata.decimal` and `price.normalize()` as a text
pub record Numbers : Type 0 where
  pub read_int : Str → Option ℤ
  pub read_decimal : Str → Option Decimal
  pub decimal : ℕ → Option ℕ
  pub show_decimal : Decimal → Str

abbrev pub is_of_plan : Uuid → Order → Bool
is_of_plan i r = r.plan_id == i

abbrev pub names : Uuid → Option Uuid → Bool
names i none = false
names i (some j) = j == i

-- The reference to a plan that is deleted is set to none.
abbrev pub unplanned : Uuid → Subscription → Subscription
unplanned i r = if names i r.plan_id then record r { plan_id = none } else r

abbrev pub unplanned_code : Uuid → DiscountCode → DiscountCode
unplanned_code i r = if names i r.plan_id then record r { plan_id = none } else r

unfoldable pub set_plan : Uuid → (Plan → Plan) → Session → Session
set_plan i f s = record s { plans = modify (plan_has_id i) f s.plans }

abbrev pub turned_over : Plan → Plan
turned_over p = record p { is_active = not p.is_active }

abbrev pub inactive : Plan → Plan
inactive p = record p { is_active = false }

abbrev pub on_inbound : Uuid → Plan → Plan
on_inbound i p = record p { inbound_id = some i }

-- `session.delete(plan)`, where no order refers to it.
unfoldable pub remove_plan : Uuid → Session → Session
remove_plan i s = record s {
  plans = without (plan_has_id i) s.plans;
  subscriptions = map (unplanned i) s.subscriptions;
  discounts = map (unplanned_code i) s.discounts;
}

abbrev pub is_integrity_error : Exn → Bool
is_integrity_error Exn.integrity_error = true
is_integrity_error _ = false

abbrev pub is_bad_request : Exn → Bool
is_bad_request Exn.telegram_bad_request = true
is_bad_request _ = false

module _ (o : Outside) (admin : User) where
  -- `list_plans`
  unfoldable pub list_plans : Action (Unit {0})
  list_plans = do
    call_telegram o Call.answer_callback
    catch_if is_bad_request (call_telegram o (Call.edit_text Text.done)) (λ e. pure tt)

  unfoldable pub toggle_found : Uuid → Option Plan → Action (Unit {0})
  unfolding set_plan list_plans
  toggle_found i none = pure tt
  toggle_found i (some plan) = do
    modify_session (set_plan i turned_over)
    log_action admin.id "toggle_plan" "plan" i
    list_plans

  unfoldable pub toggle_plan : Uuid → Action (Unit {0})
  unfolding toggle_found
  toggle_plan i = do
    call_telegram o Call.answer_callback
    plan ← gets (λ s. find (plan_has_id i) s.plans)
    toggle_found i plan

  -- The flush of a deletion, which the orders that refer to the plan forbid.
  unfoldable pub flush_delete : Uuid → Action (Unit {0})
  unfolding remove_plan
  flush_delete i = do
    referred ← gets (λ s. is_some (find (is_of_plan i) s.orders))
    raise_if referred Exn.integrity_error
    modify_session (remove_plan i)

  -- `session.rollback()`, to the rows at which the transaction began, and the plan made inactive.
  unfoldable pub deactivate_instead : Session → Uuid → Action (Unit {0})
  unfolding set_plan
  deactivate_instead begun i = do
    modify_session (rolled_back begun)
    modify_session (set_plan i inactive)

  unfoldable pub delete_found : Session → Uuid → Option Plan → Action (Unit {0})
  unfolding flush_delete deactivate_instead list_plans
  delete_found begun i none = pure tt
  delete_found begun i (some plan) = do
    catch_if is_integrity_error (log_action admin.id "delete_plan" "plan" i >> flush_delete i)
        (λ e. deactivate_instead begun i)
    list_plans

  unfoldable pub delete_plan : Session → Uuid → Action (Unit {0})
  unfolding delete_found
  delete_plan begun i = do
    call_telegram o Call.answer_callback
    plan ← gets (λ s. find (plan_has_id i) s.plans)
    delete_found begun i plan

  unfoldable pub change_found : Uuid → Option Plan → Option XuiInboundRecord → Action (Unit {0})
  unfolding set_plan list_plans
  change_found i none inbound = pure tt
  change_found i (some plan) none = pure tt
  change_found i (some plan) (some inbound) = do
    modify_session (set_plan i (on_inbound inbound.id))
    log_action admin.id "change_plan_inbound" "plan" i
    list_plans

  unfoldable pub change_inbound_confirm : (plan_id inbound_id : Uuid) → Action (Unit {0})
  unfolding change_found
  change_inbound_confirm i n = do
    call_telegram o Call.answer_callback
    plan ← gets (λ s. find (plan_has_id i) s.plans)
    inbound ← gets (λ s. find (inbound_has_id n) s.inbounds)
    change_found i plan inbound
