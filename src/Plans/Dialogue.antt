-- ===== src/Plans/Dialogue.antt =====
-- apps/bot/handlers/admin/plans.py: the dialogue that makes a plan.
use marzbot.Base.{
  ℕ, ◌≡◌, ◌*◌, Bool, true, false, not, ◌&&◌, ◌||◌, Option, none, some, ◌∷◌, ◌++◌, take, ◌==◌,
  is_some, get_or, if◌then◌else◌,
}
use marzbot.Base.Int.{ℤ, pos, negsuc, leb_ℤ}
use marzbot.Base.Decimal.{Decimal, quantize}
use marzbot.Base.Text.{codes, codes_eq, strip}
use marzbot.Base.Table.{find}
use marzbot.Models.{Uuid, Str, Plan, User, XuiInboundRecord}
use marzbot.Session.{
  Session, Action, Exn, Outside, Call, Text, FormState, Form, pure, draw, gets, or_raise, raise_if,
  modify_session, nested, catch_if, call_telegram, clear_form, update_form, log_action, final,
  managed, ◌>>=◌, ◌>>◌,
}
use marzbot.Runtime.{inbound_has_id, server_has_id}
use marzbot.Plans.{Numbers, is_integrity_error}
use marzbot.Plans.Normal.{normalize_decimal_input, normalize_integer_input}

-- `XUIInboundRecord.server.has(is_active=True)`
abbrev pub server_is_active : XuiInboundRecord → Session → Bool
server_is_active i s = elim (find (server_has_id i.server_id) s.servers) [
  | none ↦ false
  | some v ↦ v.is_active
]

abbrev pub is_offered : Session → XuiInboundRecord → Bool
is_offered s i = i.is_active && server_is_active i s

abbrev pub in_state : FormState → Form → Form
in_state st f = record f { state = st }

abbrev pub with_inbound : XuiInboundRecord → Form → Form
with_inbound i f = record f {
  state = FormState.waiting_for_plan_name;
  inbound_id = some i.id;
  protocol = some (get_or i.protocol (codes "unknown"));
}

abbrev pub with_name : Str → Form → Form
with_name t f = record f { state = FormState.waiting_for_duration_days; name = some t }

abbrev pub with_duration : ℕ → Form → Form
with_duration d f = record f { state = FormState.waiting_for_volume_gb; duration_days = some d }

abbrev pub with_volume : ℕ → Form → Form
with_volume v f = record f { state = FormState.waiting_for_price; volume_gb = some v }

-- An integer above zero, as a number.
abbrev pub above_zero : ℤ → Option ℕ
above_zero (pos n) = if n == 0 then none else some n
above_zero (negsuc n) = none

-- What the form holds when the price comes; a key that lacks is a `KeyError`.
pub record PlanForm : Type 0 where
  pub volume_gb : ℕ
  pub protocol : Str
  pub inbound_id : Uuid
  pub duration_days : ℕ
  pub name : Str

module _ (n : Numbers) (o : Outside) where
  -- The code of the plan, with six digits of a fresh UUID.
  unfoldable pub plan_code : PlanForm → Decimal → Uuid → Str
  plan_code f price fresh =
      f.protocol
      ++ (codes "_"
          ++ (take 8 (o.uuid_hex f.inbound_id)
              ++ (codes "_"
                  ++ (o.int_str f.duration_days
                      ++ (codes "d_"
                          ++ (o.int_str f.volume_gb
                              ++ (codes "gb_"
                                  ++ (n.show_decimal price
                                      ++ (codes "_" ++ take 6 (o.uuid_hex fresh))))))))))

  unfoldable pub new_plan : Uuid → PlanForm → Decimal → Uuid → Plan
  unfolding plan_code
  new_plan id f price fresh = record {
    id = id;
    code = plan_code f price fresh;
    name = f.name;
    protocol = f.protocol;
    inbound_id = some f.inbound_id;
    duration_days = f.duration_days;
    volume_bytes = f.volume_gb * 1024 * 1024 * 1024;
    price = quantize 8 price;
    renewal_price = quantize 8 price;
    currency = "USD";
    is_active = true;
  }

abbrev pub has_plan_code : Str → Plan → Bool
has_plan_code t p = codes_eq p.code t

-- `form_data`, read key by key
unfoldable pub plan_form : Form → Action PlanForm
plan_form f = do
  volume_gb ← or_raise f.volume_gb Exn.key_error
  protocol ← or_raise f.protocol Exn.key_error
  inbound_id ← or_raise f.inbound_id Exn.key_error
  duration_days ← or_raise f.duration_days Exn.key_error
  name ← or_raise f.name Exn.key_error
  pure (record {
    volume_gb = volume_gb;
    protocol = protocol;
    inbound_id = inbound_id;
    duration_days = duration_days;
    name = name;
  })

-- What an administrator may send: the buttons, a text, which may lack, and what ends the dialogue:
-- `/cancel`, or a text of the main menu.
pub data Update : Type 0 where
  create : Update
  select_inbound : Uuid → Update
  write : Option Str → Update
  cancel : Update

module _ (n : Numbers) (o : Outside) (admin : User) where
  abbrev pub reply : Text → Action (Unit {0})
  reply text = call_telegram o (Call.send_message admin.telegram_id text)

  unfoldable pub start_if : Bool → Action (Unit {0})
  start_if false = pure tt
  start_if true = update_form (in_state FormState.waiting_for_inbound_selection)

  unfoldable pub create_plan_start : Action (Unit {0})
  unfolding start_if
  create_plan_start = do
    call_telegram o Call.answer_callback
    offered ← gets (λ s. is_some (find (is_offered s) s.inbounds))
    start_if offered

  unfoldable pub select_found : Option XuiInboundRecord → Action (Unit {0})
  select_found none = clear_form
  select_found (some i) = update_form (with_inbound i)

  unfoldable pub create_plan_inbound_selected : Uuid → Action (Unit {0})
  unfolding select_found
  create_plan_inbound_selected i = do
    call_telegram o Call.answer_callback
    found ← gets (λ s. find (λ x. inbound_has_id i x && is_offered s x) s.inbounds)
    select_found found

  unfoldable pub create_plan_name : Str → Action (Unit {0})
  create_plan_name text = do update_form (with_name (strip text)); reply Text.done

  -- What a text is worth as an integer above zero; `none` for any other.
  abbrev pub integer_above_zero : Str → Option ℕ
  integer_above_zero text = elim (n.read_int (normalize_integer_input n.decimal text)) [
    | none ↦ none
    | some z ↦ above_zero z
  ]

  unfoldable pub set_number : (ℕ → Form → Form) → Option ℕ → Action (Unit {0})
  set_number f none = reply Text.invalid_input
  set_number f (some d) = do update_form (f d); reply Text.done

  unfoldable pub create_plan_duration : Str → Action (Unit {0})
  unfolding set_number
  create_plan_duration text = set_number with_duration (integer_above_zero text)

  unfoldable pub create_plan_volume : Str → Action (Unit {0})
  unfolding set_number
  create_plan_volume text = set_number with_volume (integer_above_zero text)

  -- The row, which a plan of the same code or the loss of the inbound forbids.
  unfoldable pub insert_plan : PlanForm → Decimal → Uuid → Action Uuid
  unfolding new_plan
  insert_plan f price fresh = do
    id ← draw o
    let plan = new_plan n o id f price fresh
    refused ← gets (λ s.
        is_some (find (has_plan_code plan.code) s.plans)
        || not (is_some (find (inbound_has_id f.inbound_id) s.inbounds)))
    raise_if refused Exn.integrity_error
    modify_session (λ s. record s { plans = plan ∷ s.plans })
    pure id

  -- The nested transaction; `none` if it was refused.
  unfoldable pub try_insert : PlanForm → Decimal → Uuid → Action (Option Uuid)
  unfolding insert_plan
  try_insert f price fresh =
      catch_if is_integrity_error (do id ← nested (insert_plan f price fresh); pure (some id))
        (λ e. pure none)

  unfoldable pub answer_stored : Option Uuid → Action (Unit {0})
  answer_stored none = reply Text.invalid_input
  answer_stored (some id) = log_action admin.id "create_plan" "plan" id >> reply Text.done

  -- The conversation is cleared first.
  unfoldable pub store_plan : PlanForm → Decimal → Action (Unit {0})
  unfolding try_insert answer_stored
  store_plan f price = do
    fresh ← draw o
    clear_form
    stored ← try_insert f price fresh
    answer_stored stored

  unfoldable pub price_unless : (is_bad : Bool) → Decimal → Action (Unit {0})
  unfolding plan_form store_plan
  price_unless true price = reply Text.invalid_input
  price_unless false price = do
    form_data ← gets (λ s. s.form)
    f ← plan_form form_data
    store_plan f price

  unfoldable pub price_entered : Option Decimal → Action (Unit {0})
  unfolding price_unless
  price_entered none = reply Text.invalid_input
  price_entered (some price) = price_unless (leb_ℤ price.coefficient (pos 0)) price

  -- What a text is worth as a price; `none` is `InvalidOperation`.
  abbrev pub price_of : Str → Option Decimal
  price_of text = elim (normalize_decimal_input n.decimal text) [
    | none ↦ none
    | some t ↦ n.read_decimal t
  ]

  unfoldable pub create_plan_price : Str → Action (Unit {0})
  unfolding price_entered
  create_plan_price text = price_entered (price_of text)

  unfoldable pub cancel_plan_creation : Action (Unit {0})
  cancel_plan_creation = do clear_form; reply Text.done

  -- The handler that the state gives a text to.
  unfoldable pub text_entered : FormState → Option Str → Action (Unit {0})
  unfolding create_plan_name create_plan_duration create_plan_volume create_plan_price
  text_entered st none = pure tt
  text_entered FormState.waiting_for_plan_name (some t) = create_plan_name t
  text_entered FormState.waiting_for_duration_days (some t) = create_plan_duration t
  text_entered FormState.waiting_for_volume_gb (some t) = create_plan_volume t
  text_entered FormState.waiting_for_price (some t) = create_plan_price t
  text_entered _ (some t) = pure tt

  -- The filter `CreatePlanStates.waiting_for_inbound_selection`
  unfoldable pub inbound_clicked : FormState → Uuid → Action (Unit {0})
  unfolding create_plan_inbound_selected
  inbound_clicked FormState.waiting_for_inbound_selection i = create_plan_inbound_selected i
  inbound_clicked _ i = pure tt

  -- The filters of `/cancel` and of the main menu: any state of the dialogue.
  unfoldable pub cancelled : FormState → Action (Unit {0})
  unfolding cancel_plan_creation
  cancelled FormState.waiting_for_inbound_selection = cancel_plan_creation
  cancelled FormState.waiting_for_plan_name = cancel_plan_creation
  cancelled FormState.waiting_for_duration_days = cancel_plan_creation
  cancelled FormState.waiting_for_volume_gb = cancel_plan_creation
  cancelled FormState.waiting_for_price = cancel_plan_creation
  cancelled _ = pure tt

  -- The router's filters.
  unfoldable pub route : Update → Action (Unit {0})
  unfolding create_plan_start inbound_clicked text_entered cancelled
  route Update.create s = create_plan_start s
  route (Update.select_inbound i) s = inbound_clicked s.form.state i s
  route (Update.write t) s = text_entered s.form.state t s
  route Update.cancel s = cancelled s.form.state s

  -- The sessions that updates of the administrator lead to. Between two of them anything may change
  -- but the plans and the conversation.
  pub data Reaches (s : Session) : Session → Type 0 where
    start : Reaches s s
    handled : {t : Session} → Reaches s t → (u : Update) → Reaches s (final (managed (route u) t))
    meanwhile :
        {t : Session}
        → Reaches s t
        → (t' : Session) → t'.form ≡ t.form
        → t'.plans ≡ t.plans
        → Reaches s t'
