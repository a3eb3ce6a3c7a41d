-- ===== src/Payment/Webhook.antt =====
-- apps/api/routes/webhooks/nowpayments.py: `handle_nowpayments_ipn`. The body is valid JSON here:
-- any other body is refused with status 400 before anything is read. The signature is checked, and
-- the answer is only logged.
use marzbot.Base.{
  Bool, true, false, not, ◌||◌, ◌==◌, Option, none, some, [], ◌∷◌, is_some, if◌then◌else◌,
}
use marzbot.Base.Int.{pos, abs, leb_ℤ}
use marzbot.Base.Decimal.{Decimal}
use marzbot.Base.Text.{codes, codes_eq, strip, lower}
use marzbot.Base.Table.{find}
use marzbot.Models.{Str, Payment}
use marzbot.Session.{
  Session, Action, Exn, Outside, pure, raise, raise_if, catch, gets, or_raise, modify_session,
  ◌>>=◌, ◌>>◌,
}
use marzbot.Payment.{set_payment, process_successful_payment}

-- A JSON value where an amount is expected: none, an empty text, a number, or another text with the
-- `Decimal` that it spells, if it spells one.
pub data RawAmount : Type 0 where
  absent empty : RawAmount
  number : Decimal → RawAmount
  text : Option Decimal → RawAmount

pub record IpnPayload : Type 0 where
  pub payment_id : Str
  pub payment_status : Str
  pub order_id : Str
  pub price_amount : RawAmount
  pub actually_paid : RawAmount

pub data IpnStatus : Type 0 where
  ignored already_processed processed : IpnStatus

-- Python's truth of the value.
abbrev pub is_truthy : RawAmount → Bool
is_truthy absent = false
is_truthy empty = false
is_truthy (number d) = not (abs d.coefficient == 0)
is_truthy (text t) = true

abbrev pub decimal_of : RawAmount → Option Decimal
decimal_of absent = none
decimal_of empty = none
decimal_of (number d) = some d
decimal_of (text t) = t

-- `_extract_credit_amount`; `none` is the answer with status 400.
unfoldable pub extract_credit_amount : IpnPayload → Option Decimal
unfolding abs
extract_credit_amount q =
    decimal_of (if is_truthy q.price_amount then q.price_amount else q.actually_paid)

abbrev pub option_is : Str → Option Str → Bool
option_is t none = false
option_is t (some u) = codes_eq u t

abbrev pub is_empty : Str → Bool
is_empty [] = true
is_empty (c ∷ s) = false

abbrev pub has_provider_payment_id : Str → Payment → Bool
has_provider_payment_id t p = option_is t p.provider_payment_id

abbrev pub has_order_id : Str → Payment → Bool
has_order_id t p = option_is t p.order_id

abbrev pub or_by_order : Str → Session → Option Payment → Option Payment
or_by_order order_id s none =
    if is_empty order_id then none else find (has_order_id order_id) s.payments
or_by_order order_id s (some p) = some p

-- The payment with the provider's id, or else the one with the order's.
unfoldable pub find_payment : Str → Str → Session → Option Payment
find_payment payment_id order_id s =
    or_by_order order_id s (find (has_provider_payment_id payment_id) s.payments)

-- `if not payment.provider_payment_id: payment.provider_payment_id = …`
abbrev pub keep_or : Str → Option Str → Option Str
keep_or t none = some t
keep_or t (some []) = some t
keep_or t (some (c ∷ s)) = some (c ∷ s)

-- What the callback writes to the payment before any guard.
unfoldable pub noted : Str → Str → Payment → Payment
noted payment_id status p = record p {
  provider_payment_id = keep_or payment_id p.provider_payment_id;
  payment_status = status;
}

unfoldable pub is_final : Str → Bool
is_final status = codes_eq status (codes "finished") || codes_eq status (codes "confirmed")

module _ (o : Outside) where
  -- The credit, with every exception turned into status 500.
  unfoldable pub credit_ipn : IpnPayload → Payment → Action IpnStatus
  credit_ipn q payment = do
    amount ← or_raise (extract_credit_amount q) (Exn.http_exception 400)
    raise_if (leb_ℤ amount.coefficient (pos 0)) (Exn.http_exception 400)
    catch (process_successful_payment o payment amount) (λ e. raise (Exn.http_exception 500))
    pure processed

  -- The guards behind the update of the payment, by whether the status is final and whether the
  -- payment was paid before.
  unfoldable pub answer_ipn : (is_last is_paid : Bool) → IpnPayload → Payment → Action IpnStatus
  answer_ipn false is_paid q payment = pure ignored
  answer_ipn true true q payment = pure already_processed
  answer_ipn true false q payment = credit_ipn q payment

  unfoldable pub settle_ipn : IpnPayload → Str → Payment → Action IpnStatus
  unfolding answer_ipn
  settle_ipn q status payment =
      answer_ipn (is_final status) (is_some payment.actually_paid) q payment

  unfoldable pub handle_nowpayments_ipn :
      (signature_is_valid : Bool) → IpnPayload → Action IpnStatus
  unfolding settle_ipn find_payment set_payment noted
  handle_nowpayments_ipn signature_is_valid q = do
    let payment_id = strip q.payment_id
    let status = lower (strip q.payment_status)
    raise_if (is_empty payment_id) (Exn.http_exception 400)
    found ← gets (find_payment payment_id (strip q.order_id))
    payment ← or_raise found (Exn.http_exception 404)
    modify_session (set_payment payment.id (noted payment_id status))
    settle_ipn q status (noted payment_id status payment)
