-- ===== src/Payment/Poll.antt =====
-- apps/worker/jobs/payments.py: `sync_pending_payments`.
pub mod Silence
use marzbot.Base.{Bool, true, false, ◌||◌, ◌&&◌, not, Option, none, some, List, [], ◌∷◌, is_some}
use marzbot.Base.Text.{codes, codes_eq}
use marzbot.Base.Table.{select}
use marzbot.Models.{Str, Payment}
use marzbot.Session.{
  Session, Action, Exn, Outside, Call, PaymentStatus, pure, raise, catch, gets, replied, log,
  modify_session, ◌>>=◌, ◌>>◌,
}
use marzbot.Payment.{set_payment}
use marzbot.Payment.Webhook.{is_final, keep_or}

unfoldable pub is_pending : Payment → Bool
is_pending p =
    codes_eq p.payment_status (codes "waiting")
    || codes_eq p.payment_status (codes "confirming")
    || codes_eq p.payment_status (codes "partially_paid")

-- `if not payment.provider_payment_id and status.payment_id: …`
abbrev pub learned : Option Str → Option Str → Option Str
learned none known = known
learned (some t) known = keep_or t known

unfoldable pub updated : PaymentStatus → Payment → Payment
updated status p = record p {
  payment_status = status.payment_status;
  provider_payment_id = learned status.payment_id p.provider_payment_id;
}

module _ (o : Outside) where
  -- The `try` block. The call of `process_successful_payment` names no `bot`, an argument that the
  -- function needs, so Python raises before the body.
  unfoldable pub ask : Payment → Str → Action (Unit {0})
  unfolding set_payment updated is_final
  ask payment provider_payment_id = do
    status ← (λ s.
        replied (o.payment_status s (Call.get_payment_status provider_payment_id))
          (log (Call.get_payment_status provider_payment_id) s))
    modify_session (set_payment payment.id (updated status))
    elim (is_final status.payment_status && not (is_some payment.actually_paid)) [
      | true ↦ raise Exn.type_error
      | false ↦ pure tt
    ]

  -- A payment that has no id at the provider yet is left to the callback.
  unfoldable pub sync_one : Payment → Action (Unit {0})
  unfolding ask
  sync_one payment = elim payment.provider_payment_id [
    | none ↦ pure tt
    | some [] ↦ pure tt
    | some (c ∷ t) ↦ catch (ask payment (c ∷ t)) (λ e. pure tt)
  ]

  unfoldable pub sync_each : List Payment → Action (Unit {0})
  unfolding sync_one
  sync_each [] = pure tt
  sync_each (p ∷ ps) = do sync_one p; sync_each ps

  unfoldable pub sync_pending_payments : Action (Unit {0})
  unfolding sync_each is_pending
  sync_pending_payments = do payments ← gets (λ s. select is_pending s.payments); sync_each payments
