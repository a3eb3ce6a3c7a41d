-- ===== src/Models.antt =====
-- The rows of the database (models/*.py). A UUID is a number: it is only compared. Money is an
-- integer number of units of 10^-8 (`Numeric(18, 8)`), a time a number of seconds.
-- Columns that no modelled operation reads or writes are left out.
use marzbot.Base.{ℕ, Bool, Option, List, String}
use marzbot.Base.Int.{ℤ}

abbrev pub Uuid : Type 0
Uuid = ℕ

abbrev pub Time : Type 0
Time = ℕ

-- A text that the code takes apart or puts together, as its code points.
abbrev pub Str : Type 0
Str = List ℕ

-- `direction` of a wallet transaction
pub data Direction : Type 0 where
  credit debit : Direction

pub record Wallet : Type 0 where
  pub id : Uuid
  pub user_id : Uuid
  pub balance : ℤ
  pub credit_limit : ℤ
  pub hold_balance : ℤ

pub record WalletTransaction : Type 0 where
  pub wallet_id : Uuid
  pub user_id : Uuid
  pub type : String
  pub direction : Direction
  pub amount : ℤ
  pub currency : String
  pub balance_before : ℤ
  pub balance_after : ℤ
  pub reference_type : Option String
  pub reference_id : Option Uuid

-- The values that the code writes to `Order.status`.
pub data OrderStatus : Type 0 where
  paid processing completed provisioned failed refunded failed_needs_manual_refund : OrderStatus

pub record Order : Type 0 where
  pub id : Uuid
  pub user_id : Uuid
  pub plan_id : Uuid
  pub status : OrderStatus
  pub source : String
  pub amount : ℤ
  pub currency : String

pub data SubscriptionStatus : Type 0 where
  pending_activation active expired refunded cancelled : SubscriptionStatus

pub record Subscription : Type 0 where
  pub id : Uuid
  pub user_id : Uuid
  pub order_id : Option Uuid
  pub plan_id : Option Uuid
  pub status : SubscriptionStatus
  pub starts_at : Option Time
  pub ends_at : Option Time
  pub activated_at : Option Time
  pub expired_at : Option Time
  pub volume_bytes : ℕ
  pub used_bytes : ℕ
  pub sub_link : Option Str
  pub last_usage_sync_at : Option Time

pub record XuiClientRecord : Type 0 where
  pub id : Uuid
  pub subscription_id : Uuid
  pub inbound_id : Uuid
  pub xui_client_remote_id : Option Str
  pub email : Str
  pub client_uuid : Str
  pub username : Str
  pub sub_link : Option Str
  pub usage_bytes : ℕ
  pub is_active : Bool

pub record XuiServerRecord : Type 0 where
  pub id : Uuid
  pub base_url : Str
  pub is_active : Bool
  pub subscription_port : ℕ
  pub sub_domain : Option Str
  pub max_clients : Option ℕ
  pub has_credentials : Bool
  -- `health_status == "deleted"`
  pub is_deleted : Bool
  pub config_domain : Option Str

pub record XuiInboundRecord : Type 0 where
  pub id : Uuid
  pub server_id : Uuid
  pub xui_inbound_remote_id : ℕ
  pub is_active : Bool
  pub remark : Option Str
  pub protocol : Option Str
  pub port : Option ℕ

pub record Plan : Type 0 where
  pub id : Uuid
  pub code : Str
  pub name : Str
  pub protocol : Str
  pub inbound_id : Option Uuid
  pub duration_days : ℕ
  pub volume_bytes : ℕ
  pub price : ℤ
  pub renewal_price : ℤ
  pub currency : String
  pub is_active : Bool

pub record User : Type 0 where
  pub id : Uuid
  pub telegram_id : ℕ
  pub status : String
  pub role : String
  pub is_bot_blocked : Bool
  pub has_received_free_trial : Bool
  pub last_seen_at : Option Time

pub record DiscountCode : Type 0 where
  pub id : Uuid
  pub code : Str
  pub discount_percent : ℕ
  pub max_uses : ℕ
  pub used_count : ℕ
  pub is_active : Bool
  pub expires_at : Option Time
  pub plan_id : Option Uuid

-- What a direct purchase saves in `callback_payload` for the callback.
pub record PurchaseMeta : Type 0 where
  pub plan_id : Uuid
  pub config_name : Str
  pub discount_percent : ℕ
  pub discount_id : Option Uuid

pub record Payment : Type 0 where
  pub id : Uuid
  pub user_id : Uuid
  pub kind : String
  pub provider_payment_id : Option Str
  pub provider_invoice_id : Option Str
  pub order_id : Option Str
  pub payment_status : Str
  pub price_currency : String
  pub price_amount : ℤ
  pub actually_paid : Option ℤ
  pub callback_payload : Option PurchaseMeta

pub data TicketStatus : Type 0 where
  opened answered closed : TicketStatus

pub record Ticket : Type 0 where
  pub id : Uuid
  pub user_id : Uuid
  pub status : TicketStatus

pub record TicketMessage : Type 0 where
  pub id : Uuid
  pub ticket_id : Uuid
  pub sender_id : Uuid
  pub text : Option Str
  pub photo_id : Option Str

-- A row of the audit log, without its payload, which nothing reads back.
pub record AuditLog : Type 0 where
  pub actor_user_id : Uuid
  pub action : String
  pub entity_type : String
  pub entity_id : Uuid

pub data BroadcastStatus : Type 0 where
  queued processing finished : BroadcastStatus

pub record BroadcastJob : Type 0 where
  pub id : Uuid
  pub status : BroadcastStatus
  pub is_photo : Bool
  pub total_recipients : ℕ
  pub processed_recipients : ℕ
  pub failed_recipients : ℕ
  pub finished_at : Option Time
