-- ===== src/Session.antt =====
-- A handler's work inside one SQLAlchemy session: the rows as the session sees them, Python's
-- exceptions, and the calls to the outside, which are logged in the order in which they are made.
-- `nested` is `session.begin_nested()`, and `managed` the commit or rollback of
-- apps/bot/middlewares/database.py and apps/api/dependencies/db.py.
use marzbot.Base.{
  ℕ, ◌+◌, ◌≡◌, refl, ◌⊎◌, inl, inr, Bool, true, false, Option, none, some, List, ◌∷◌, String,
}
use marzbot.Base.Int.{ℤ}
use marzbot.Models.{
  Uuid, Time, Str, Wallet, WalletTransaction, Order, Subscription, XuiClientRecord, XuiServerRecord,
  XuiInboundRecord, Plan, User, DiscountCode, Payment, Ticket, TicketMessage, AuditLog,
  BroadcastJob,
}

-- The exceptions that the code raises or catches by name; `other_error` is any other.
pub data Exn : Type 0 where
  value_error type_error key_error : Exn
  wallet_not_found insufficient_balance : Exn
  provisioning_error provisioning_conflict zero_usage_refund : Exn
  xui_authentication : Exn
  xui_request : Str → Exn
  nowpayments_request : Exn
  telegram_forbidden telegram_bad_request telegram_retry_after telegram_error : Exn
  http_exception : ℕ → Exn
  integrity_error pending_rollback : Exn
  other_error : Exn

-- `except ProvisioningError`, which its two subclasses meet.
abbrev pub is_provisioning_error : Exn → Bool
is_provisioning_error Exn.provisioning_error = true
is_provisioning_error Exn.provisioning_conflict = true
is_provisioning_error Exn.zero_usage_refund = true
is_provisioning_error _ = false

-- `except InsufficientBalanceError`
abbrev pub is_insufficient_balance : Exn → Bool
is_insufficient_balance Exn.insufficient_balance = true
is_insufficient_balance _ = false

-- `except XUIClientError`, which its two subclasses meet.
abbrev pub is_xui_client_error : Exn → Bool
is_xui_client_error Exn.xui_authentication = true
is_xui_client_error (Exn.xui_request m) = true
is_xui_client_error _ = false

-- What a call to the outside gives back.
pub data Reply (A : Type 0) : Type 0 where
  answer : A → Reply A
  failure : Exn → Reply A

-- The client settings that a panel stores (schemas/internal/xui.py).
pub record XuiClient : Type 0 where
  pub id : Str
  pub uuid : Str
  pub email : Str
  pub limit_ip : ℕ
  pub total_gb : ℕ
  pub expiry_time : ℕ
  pub enable : Bool
  pub sub_id : Str
  pub comment : Str

-- The texts sent to a user, by what they say.
pub data Text : Type 0 where
  plan_not_available insufficient_balance balance_not_sufficient_anymore : Text
  purchase_error provisioning_failed_refunded config_ready payment_gateway_unavailable : Text
  invoice_created refund_notice processing service_invalid plan_deleted renewal_success : Text
  wallet_missing admin_notice : Text
  name_invalid name_taken ask_discount discount_invalid choose_payment : Text
  access_denied missing_start account_not_found user_not_found invalid_input done : Text
  message_from_admin ticket_created message_recorded ticket_alert ticket_reply user_blocked : Text
  ticket_not_found broadcast expiry_warning volume_warning : Text

-- The calls to the outside. A panel is named by its server.
pub data Call : Type 0 where
  add_client : Uuid → ℕ → XuiClient → Call
  update_client : Uuid → ℕ → Str → XuiClient → Call
  delete_client : Uuid → ℕ → Str → Call
  get_client_traffic : Uuid → Str → Call
  create_invoice : ℤ → Call
  get_payment_status : Str → Call
  send_message : ℕ → Text → Call
  send_photo : ℕ → Call
  -- `callback.message.edit_text`
  edit_text : Text → Call
  send_chat_action : ℕ → Call
  -- `callback.answer`
  answer_callback : Call
  -- `login` and `get_inbounds` on the panel at an address
  get_inbounds : Str → Call

-- aiogram's `FSMContext` of the user whose update is handled: the state and the data that the
-- purchase and the renewal keep there.
pub data State : Type 0 where
  idle waiting_for_config_name waiting_for_discount_code purchase_processing : State
  waiting_for_volume waiting_for_time : State

pub record Fsm : Type 0 where
  pub state : State
  pub plan_id : Option Uuid
  pub config_name : Option Str
  pub discount_percent : Option ℕ
  pub discount_id : Option Uuid

-- The states and the data of the other dialogues: those of the administration, and the user's of
-- support.
pub data FormState : Type 0 where
  no_form waiting_for_issue waiting_for_reply : FormState
  waiting_for_balance_adjustment waiting_for_message_to_user : FormState
  waiting_for_inbound_selection waiting_for_plan_name waiting_for_duration_days : FormState
  waiting_for_volume_gb waiting_for_price : FormState
  waiting_for_config_domain waiting_for_sub_domain waiting_for_max_clients : FormState
  waiting_for_new_base_url : FormState

pub record Form : Type 0 where
  pub state : FormState
  pub target_user_id : Option Uuid
  pub ticket_id : Option Uuid
  pub inbound_id : Option Uuid
  pub protocol : Option Str
  pub name : Option Str
  pub duration_days : Option ℕ
  pub volume_gb : Option ℕ
  pub server_id : Option Uuid
  pub config_domain : Option Str

pub record Session : Type 0 where
  pub wallets : List Wallet
  pub transactions : List WalletTransaction
  pub orders : List Order
  pub subscriptions : List Subscription
  pub xui_clients : List XuiClientRecord
  pub servers : List XuiServerRecord
  pub inbounds : List XuiInboundRecord
  pub plans : List Plan
  pub users : List User
  pub discounts : List DiscountCode
  pub payments : List Payment
  pub tickets : List Ticket
  pub ticket_messages : List TicketMessage
  pub audit_logs : List AuditLog
  pub broadcasts : List BroadcastJob
  -- the conversation, which no rollback touches
  pub fsm : Fsm
  pub form : Form
  -- a flush has failed, and the transaction can only be rolled back
  pub poisoned : Bool
  -- how many times `uuid4()` was called, and the calls made, latest first
  pub drawn : ℕ
  pub calls : List Call

pub Reply-cases :
    {A : Type 0} (r : Reply A) → ((a : A) × (r ≡ answer a)) ⊎ ((e : Exn) × (r ≡ failure e))
Reply-cases (answer a) = inl (a, refl)
Reply-cases (failure e) = inr (e, refl)

-- How a call ends. The session comes back after an exception too: what was written stays written.
pub data Run (A : Type 0) : Type 0 where
  ok : A → Session → Run A
  err : Exn → Session → Run A

abbrev pub Action : Type 0 → Type 0
Action A = Session → Run A

-- The session that a call leaves.
abbrev pub final : {A : Type 0} → Run A → Session
final (ok a s) = s
final (err e s) = s

module _ {A : Type 0} where
  abbrev pub pure : A → Action A
  pure = ok

  abbrev pub raise : Exn → Action A
  raise = err

  abbrev pub gets : (Session → A) → Action A
  gets f s = ok (f s) s

  -- the value, or the exception
  abbrev pub or_raise : Option A → Exn → Action A
  or_raise none e s = err e s
  or_raise (some a) e s = ok a s

  abbrev pub replied : Reply A → Action A
  replied (answer a) s = ok a s
  replied (failure e) s = err e s

  abbrev pub handle : Run A → (Exn → Action A) → Run A
  handle (ok a s) h = ok a s
  handle (err e s) h = h e s

  -- `try: m except …`, with the handler on every exception
  abbrev pub catch : Action A → (Exn → Action A) → Action A
  catch m h s = handle (m s) h

  abbrev pub proceed : {B : Type 0} → Run A → (A → Action B) → Run B
  proceed (ok a s) f = f a s
  proceed (err e s) f = err e s

infixl 5 ◌>>=◌ ◌>>◌
abbrev pub ◌>>=◌ : {A B : Type 0} → Action A → (A → Action B) → Action B
◌>>=◌ m f s = proceed (m s) f

abbrev pub ◌>>◌ : {A B : Type 0} → Action A → Action B → Action B
m >> k = m >>= λ _. k

abbrev pub raise_if : Bool → Exn → Action (Unit {0})
raise_if true e s = err e s
raise_if false e s = ok tt s

abbrev pub modify_session : (Session → Session) → Action (Unit {0})
modify_session f s = ok tt (f s)

-- The rows of `s`, with what cannot be undone taken from `s'`.
abbrev pub rolled_back : Session → Session → Session
rolled_back s s' = record s { fsm = s'.fsm; form = s'.form; drawn = s'.drawn; calls = s'.calls }

abbrev pub undo : {A : Type 0} → Session → Run A → Run A
undo s (ok a s') = ok a s'
undo s (err e s') = err e (rolled_back s s')

-- `async with session.begin_nested()`: an exception undoes the rows and is passed on.
unfoldable pub nested : {A : Type 0} → Action A → Action A
nested m s = undo s (m s)

-- `commit()`, which a failed flush makes impossible.
abbrev pub commit : {A : Type 0} → Bool → A → Session → Session → Run A
commit true a s s' = err Exn.pending_rollback (rolled_back s s')
commit false a s s' = ok a s'

abbrev pub settle : {A : Type 0} → Session → Run A → Run A
settle s (ok a s') = commit s'.poisoned a s s'
settle s (err e s') = err e (rolled_back s s')

-- The session of one update or request: commit on success, rollback on an exception.
unfoldable pub managed : {A : Type 0} → Action A → Action A
managed m s = settle s (m s)

-- What the payment provider tells of a payment (schemas/internal/nowpayments.py).
pub record PaymentStatus : Type 0 where
  pub payment_status : Str
  pub payment_id : Option Str

-- An inbound as the panel tells of it; its settings and sniffing are left out.
pub record RemoteInbound : Type 0 where
  pub id : ℕ
  pub remark : Option Str
  pub protocol : Option Str
  pub port : Option ℕ

-- What the code uses of the world outside: `uuid.uuid4` (the n-th value drawn) with its two
-- spellings, the clock, `str` of a number, and what the panels, the payment provider and Telegram
-- answer to a call, by all that happened before it.
pub record Outside : Type 0 where
  pub uuid4 : ℕ → Uuid
  pub uuid_str : Uuid → Str
  pub uuid_hex : Uuid → Str
  pub int_str : ℕ → Str
  pub utcnow : Session → Time
  pub panel : Session → Call → Reply (Unit {0})
  pub panel_traffic : Session → Call → Reply ℕ
  pub telegram : Session → Call → Reply (Unit {0})
  -- `create_payment_invoice`, with the invoice's id, and `make_qr_bytes` giving an image
  pub invoice : Session → Call → Reply String
  pub payment_status : Session → Call → Reply PaymentStatus
  pub has_qr : Session → Bool
  pub remote_inbounds : Session → Call → Reply (List RemoteInbound)
  pub owner_telegram_id : ℕ

abbrev pub log : Call → Session → Session
log c s = record s { calls = c ∷ s.calls }

module _ (o : Outside) where
  -- `uuid4()`
  abbrev pub draw : Action Uuid
  draw s = ok (o.uuid4 s.drawn) (record s { drawn = s.drawn + 1 })

  abbrev pub call_panel : Call → Action (Unit {0})
  call_panel c s = replied (o.panel s c) (log c s)

  abbrev pub call_panel_traffic : Call → Action ℕ
  call_panel_traffic c s = replied (o.panel_traffic s c) (log c s)

  abbrev pub call_telegram : Call → Action (Unit {0})
  call_telegram c s = replied (o.telegram s c) (log c s)

-- `except` with a test on the exception: the handler's value, or the exception once more.
abbrev pub rethrow : {A : Type 0} → Bool → Exn → (Exn → Action A) → Action A
rethrow true e h s = h e s
rethrow false e h s = err e s

abbrev pub catch_if : {A : Type 0} → (Exn → Bool) → Action A → (Exn → Action A) → Action A
catch_if test m h = catch m λ e. rethrow (test e) e h

abbrev pub cleared : Fsm
cleared = record {
  state = State.idle;
  plan_id = none;
  config_name = none;
  discount_percent = none;
  discount_id = none;
}

-- `state.clear()` and `state.set_state(…)`
abbrev pub clear_state : Action (Unit {0})
clear_state = modify_session λ s. record s { fsm = cleared }

abbrev pub set_state : State → Action (Unit {0})
set_state st = modify_session λ s. record s { fsm = record (s.fsm) { state = st } }

abbrev pub blank : Form
blank = record {
  state = FormState.no_form;
  target_user_id = none;
  ticket_id = none;
  inbound_id = none;
  protocol = none;
  name = none;
  duration_days = none;
  volume_gb = none;
  server_id = none;
  config_domain = none;
}

-- `state.clear()` and `state.update_data(…)`, with `set_state`, of those dialogues
abbrev pub clear_form : Action (Unit {0})
clear_form = modify_session λ s. record s { form = blank }

abbrev pub update_form : (Form → Form) → Action (Unit {0})
update_form f = modify_session λ s. record s { form = f s.form }

-- `AuditLogRepository.log_action` (repositories/audit.py)
abbrev pub log_action : Uuid → String → String → Uuid → Action (Unit {0})
log_action actor action entity_type entity_id = modify_session λ s. record s {
  audit_logs =
      record {
        actor_user_id = actor;
        action = action;
        entity_type = entity_type;
        entity_id = entity_id;
      }
      ∷ s.audit_logs;
}
