-- ===== src/Purchase/Dialogue/Orderly.antt =====
-- The data of the conversation through a dialogue of a purchase.
use marzbot.Base.{ℕ, ◌≡◌, refl, sym, ap, ◌∙◌, Bool, true, false, Option, none, some, arith, is_some}
use mathlib.Core.Path.{subst}
use marzbot.Models.{Uuid, Str}
use marzbot.Session.{
  Session, Run, ok, err, Outside, Call, State, Fsm, answer, final, managed, cleared, log, handle,
  clear_state, Reply, failure, Action, proceed, replied, catch, pure, set_state, call_telegram,
  settle, ◌>>◌,
}
use marzbot.Purchase.{is_processing, pay_with_wallet, process_wallet_purchase}
use marzbot.Purchase.Gateway.{
  pay_with_gateway, process_gateway_purchase, buy_by_invoice, record_if, record_invoice,
  ask_invoice,
}
use marzbot.Purchase.Dialogue.{
  Update, is_config_name, select_usable, select_by_id, plan_selected_ask_name, accept_name,
  config_name_entered, show_choice, show_choice_msg, skip_discount_code, accept_code,
  discount_code_entered, cancel_purchase, text_entered, route, Reaches,
}
use marzbot.Purchase.Dialogue.Kept.{process_wallet_purchase-cleared}

abbrev pub is_named : Option Str → Bool
is_named none = true
is_named (some name) = is_config_name name

-- A name that is kept is a valid one, a name is asked for once there is a plan, and a code once there
-- is a name.
pub record IsOrderly (f : Fsm) : Type 0 where
  pub named : is_named f.config_name ≡ true
  pub asked : f.state ≡ State.waiting_for_config_name → is_some f.plan_id ≡ true
  pub coded :
      f.state ≡ State.waiting_for_discount_code
      → (is_some f.plan_id ≡ true) × (is_some f.config_name ≡ true)

cleared-IsOrderly : IsOrderly cleared
cleared-IsOrderly = record {
  named = refl;
  asked = λ e. ground arith;
  coded = λ e. (ground arith, ground arith);
}

plan_selected_ask_name-IsOrderly :
    (o : Outside) (i : Option Uuid) (s : Session)
    → IsOrderly s.fsm
    → IsOrderly (final (plan_selected_ask_name o i s)).fsm
unfolding plan_selected_ask_name select_by_id select_usable
plan_selected_ask_name-IsOrderly o i s h = ground arith

module _ (o : Outside) (telegram_id : ℕ) where
  accept_name-IsOrderly :
      (name : Str) (taken : Bool) (s : Session)
      → IsOrderly s.fsm
      → s.fsm.state ≡ State.waiting_for_config_name
      → IsOrderly (final (accept_name o telegram_id name (is_config_name name) taken s)).fsm
  unfolding accept_name
  accept_name-IsOrderly name taken s h e = ground arith

  text_entered-IsOrderly :
      (m : Option Str) (s : Session)
      → IsOrderly s.fsm
      → IsOrderly (final (text_entered o telegram_id s.fsm.state m s)).fsm
  unfolding text_entered config_name_entered discount_code_entered accept_code show_choice_msg
  text_entered-IsOrderly m s h = grind (arith, accept_name-IsOrderly)

  skip_discount_code-IsOrderly :
      (s : Session) → IsOrderly s.fsm → IsOrderly (final (skip_discount_code o telegram_id s)).fsm
  unfolding skip_discount_code show_choice
  skip_discount_code-IsOrderly s h = ground arith

  abbrev is_ok : Run (Unit {0}) → Bool
  is_ok (ok a t) = true
  is_ok (err e t) = false

  ended_ok : (run : Run (Unit {0})) → is_ok run ≡ true → (t : Session) × (run ≡ ok tt t)
  ended_ok (ok a t) h = (t, refl)
  ended_ok (err e t) h = absurd (ground arith)

  text_entered_ok :
      (s : Session)
      → IsOrderly s.fsm
      → ((v : Session) (c : Call) → o.telegram v c ≡ answer tt)
      → (m : Option Str) → is_ok (text_entered o telegram_id s.fsm.state m s) ≡ true
  unfolding text_entered config_name_entered accept_name discount_code_entered accept_code
      show_choice_msg
  text_entered_ok s h answers m = grind (arith, answers)

  -- A run that ends normally has ended the conversation.
  abbrev Clears : Run (Unit {0}) → Type 0
  Clears (ok a t) = t.fsm ≡ cleared
  Clears (err e t) = Unit

  process_gateway_purchase-Clears :
      (s : Session) → Clears (process_gateway_purchase o telegram_id s)
  unfolding process_gateway_purchase buy_by_invoice ask_invoice record_if record_invoice
  process_gateway_purchase-Clears s = ground arith

  recovered :
      (run : Run (Unit {0}))
      → Clears run
      → (t : Session) × (handle run (λ e. clear_state) ≡ ok tt t) × (t.fsm ≡ cleared)
  recovered (ok a t) h = (t, refl, h)
  recovered (err e t) h = (record t { fsm = cleared }, refl, refl)

  -- Once the click is answered, paying by an invoice ends normally and ends the conversation,
  -- whatever the rows are and the provider answers.
  pay_with_gateway_ends :
      (s : Session)
      → (t : Session) × (catch (process_gateway_purchase o telegram_id) (λ e. clear_state) s
          ≡ ok tt t)
        × (t.fsm ≡ cleared)
  pay_with_gateway_ends s =
      recovered (process_gateway_purchase o telegram_id s) (process_gateway_purchase-Clears s)

  wallet_purchase_ends :
      (run : Run (Unit {0}))
      → (final run).fsm ≡ cleared
      → (final (handle run (λ e. clear_state))).fsm ≡ cleared
  wallet_purchase_ends (ok a t) h = h
  wallet_purchase_ends (err e t) h = refl

  from_cleared : (f : Fsm) → f ≡ cleared → IsOrderly f
  from_cleared f e = subst IsOrderly (sym e) cleared-IsOrderly

  processing-IsOrderly :
      (f : Fsm) → IsOrderly f → IsOrderly (record f { state = State.purchase_processing })
  processing-IsOrderly f h = record {
    named = h.named;
    asked = λ e. ground arith;
    coded = λ e. (ground arith, ground arith);
  }

  -- After the sign that the bot is typing.
  abbrev typed : Reply (Unit {0}) → Session → Run (Unit {0})
  typed reply t =
      proceed (replied reply t)
        (λ x. catch (process_wallet_purchase o telegram_id) (λ e. clear_state))

  typed-IsOrderly :
      (reply : Reply (Unit {0})) (t : Session)
      → IsOrderly t.fsm
      → IsOrderly (final (typed reply t)).fsm
  typed-IsOrderly (answer x) t h = from_cleared _ (
      wallet_purchase_ends (process_wallet_purchase o telegram_id t)
        (process_wallet_purchase-cleared o telegram_id t))
  typed-IsOrderly (failure e) t h = h

  abbrev clicked : Bool → Action (Unit {0})
  clicked busy = elim busy [
    | true ↦ pure tt
    | false ↦
        set_state State.purchase_processing
        >> call_telegram o (Call.send_chat_action telegram_id)
        >> catch (process_wallet_purchase o telegram_id) (λ e. clear_state)
  ]

  clicked-IsOrderly :
      (busy : Bool) (s : Session) → IsOrderly s.fsm → IsOrderly (final (clicked busy s)).fsm
  clicked-IsOrderly true s h = h
  clicked-IsOrderly false s h =
      let t = record s { fsm = record (s.fsm) { state = State.purchase_processing } } in
      typed-IsOrderly (o.telegram t (Call.send_chat_action telegram_id))
        (log (Call.send_chat_action telegram_id) t) (processing-IsOrderly s.fsm h)

  -- After the answer to the click.
  answered-IsOrderly :
      (rest : Action (Unit {0}))
      → ((t : Session) → IsOrderly t.fsm → IsOrderly (final (rest t)).fsm)
      → (reply : Reply (Unit {0})) (t : Session) → IsOrderly t.fsm
      → IsOrderly (final (proceed (replied reply t) (λ x. rest))).fsm
  answered-IsOrderly rest keeps (answer x) t h = keeps t h
  answered-IsOrderly rest keeps (failure e) t h = h

  pay_with_wallet-IsOrderly :
      (s : Session) → IsOrderly s.fsm → IsOrderly (final (pay_with_wallet o telegram_id s)).fsm
  unfolding pay_with_wallet
  pay_with_wallet-IsOrderly s h =
      answered-IsOrderly (λ t. clicked (is_processing o t.fsm.state) t)
        (λ t. clicked-IsOrderly (is_processing o t.fsm.state) t) (o.telegram s Call.answer_callback)
        (log Call.answer_callback s) h

  pay_with_gateway-IsOrderly :
      (s : Session) → IsOrderly s.fsm → IsOrderly (final (pay_with_gateway o telegram_id s)).fsm
  unfolding pay_with_gateway
  pay_with_gateway-IsOrderly s h =
      answered-IsOrderly (catch (process_gateway_purchase o telegram_id) (λ e. clear_state))
        (λ t k.
          let (v, e, clear) = pay_with_gateway_ends t in
          from_cleared _ (ap (λ (r : Run (Unit {0})). (final r).fsm) e ∙ clear))
        (o.telegram s Call.answer_callback) (log Call.answer_callback s) h

  route-IsOrderly :
      (u : Update) (s : Session) → IsOrderly s.fsm → IsOrderly (final (route o telegram_id u s)).fsm
  unfolding route cancel_purchase
  route-IsOrderly (Update.select_plan i) s h = plan_selected_ask_name-IsOrderly o i s h
  route-IsOrderly (Update.write m) s h = text_entered-IsOrderly m s h
  route-IsOrderly Update.skip_discount s h = skip_discount_code-IsOrderly s h
  route-IsOrderly Update.pay_wallet s h = pay_with_wallet-IsOrderly s h
  route-IsOrderly Update.pay_gateway s h = pay_with_gateway-IsOrderly s h
  route-IsOrderly Update.cancel s h =
      answered-IsOrderly clear_state (λ t k. cleared-IsOrderly) (o.telegram s Call.answer_callback)
        (log Call.answer_callback s) h

  settled-fsm : (s : Session) (run : Run (Unit {0})) → (final (settle s run)).fsm ≡ (final run).fsm
  settled-fsm s run = ground arith

  managed-IsOrderly :
      (u : Update) (s : Session)
      → IsOrderly s.fsm
      → IsOrderly (final (managed (route o telegram_id u) s)).fsm
  unfolding managed
  managed-IsOrderly u s h =
      subst IsOrderly (sym (settled-fsm s (route o telegram_id u s))) (route-IsOrderly u s h)

  -- From an ended conversation, whatever updates the user sends, and whatever changes the rows
  -- between two of them: a name that is kept is a valid one, a name is asked for only once a plan is
  -- chosen, and a discount code only once there are a plan and a name.
  pub Reaches-IsOrderly :
      {s t : Session} → Reaches o telegram_id s t → s.fsm ≡ cleared → IsOrderly t.fsm
  Reaches-IsOrderly Reaches.start e = from_cleared _ e
  Reaches-IsOrderly (Reaches.handled r u) e = managed-IsOrderly u _ (Reaches-IsOrderly r e)
  Reaches-IsOrderly (Reaches.meanwhile r t' same) e =
      subst IsOrderly (sym same) (Reaches-IsOrderly r e)

  -- If Telegram answers every message, no text that the user sends in such a dialogue ends in an
  -- exception.
  pub Reaches-text_entered :
      {s t : Session}
      → Reaches o telegram_id s t
      → s.fsm ≡ cleared
      → ((v : Session) (c : Call) → o.telegram v c ≡ answer tt)
      → (m : Option Str) → (t' : Session) × (route o telegram_id (Update.write m) t ≡ ok tt t')
  unfolding route
  Reaches-text_entered {s} {t} r e answers m =
      ended_ok _ (text_entered_ok t (Reaches-IsOrderly r e) answers m)
