-- ===== src/Tests/World.antt =====
-- The rows and the surroundings that the tests run on: one user with five units of money, a plan
-- for two, and a server with one inbound.
use marzbot.Base.{◌+◌, true, false, none, some, List, [], ◌∷◌}
use marzbot.Base.Int.{pos}
use marzbot.Base.Text.{codes}
use marzbot.Models.{Wallet, Plan, User, XuiServerRecord, XuiInboundRecord, DiscountCode, Payment}
use marzbot.Session.{Session, Outside, Reply, answer, cleared, blank}

-- A world where Telegram answers, and every panel gives the same reply.
abbrev pub world : Reply (Unit {0}) → Outside
world reply = record {
  uuid4 = λ n. 1000 + n;
  uuid_str = λ u. u ∷ [];
  uuid_hex = λ u. u ∷ [];
  int_str = λ n. n ∷ [];
  utcnow = λ s. 0;
  panel = λ s c. reply;
  panel_traffic = λ s c. answer 0;
  telegram = λ s c. answer tt;
  invoice = λ s c. answer "iid";
  payment_status = λ s c. answer (record { payment_status = codes "finished"; payment_id = none });
  has_qr = λ s. true;
  remote_inbounds = λ s c. answer [];
  owner_telegram_id = 7;
}

abbrev pub wallet : Wallet
wallet = record {
  id = 2;
  user_id = 1;
  balance = pos 500_000_000;
  credit_limit = pos 0;
  hold_balance = pos 0;
}

abbrev pub plan : Plan
plan = record {
  id = 3;
  code = codes "p";
  name = codes "P";
  protocol = codes "vless";
  inbound_id = none;
  duration_days = 30;
  volume_bytes = 1000;
  price = pos 200_000_000;
  renewal_price = pos 200_000_000;
  currency = "USD";
  is_active = true;
}

abbrev pub user : User
user = record {
  id = 1;
  telegram_id = 100;
  status = "active";
  role = "user";
  is_bot_blocked = false;
  has_received_free_trial = false;
  last_seen_at = none;
}

abbrev pub server : XuiServerRecord
server = record {
  id = 5;
  base_url = codes "http://a.b:2053/x";
  is_active = true;
  subscription_port = 2096;
  sub_domain = none;
  max_clients = some 1;
  has_credentials = true;
  is_deleted = false;
  config_domain = none;
}

abbrev pub inbound : XuiInboundRecord
inbound = record {
  id = 4;
  server_id = 5;
  xui_inbound_remote_id = 9;
  is_active = true;
  remark = none;
  protocol = none;
  port = none;
}

-- A top-up that waits for its callback.
abbrev pub payment : Payment
payment = record {
  id = 6;
  user_id = 1;
  kind = "wallet_topup";
  provider_payment_id = some (codes "77");
  provider_invoice_id = none;
  order_id = some (codes "o1");
  payment_status = codes "waiting";
  price_currency = "USD";
  price_amount = pos 100_000_000;
  actually_paid = none;
  callback_payload = none;
}

abbrev pub discount : DiscountCode
discount = record {
  id = 8;
  code = codes "SALE";
  discount_percent = 20;
  max_uses = 1;
  used_count = 0;
  is_active = true;
  expires_at = none;
  plan_id = none;
}

-- The rows, with the inbounds given.
abbrev pub shop : List XuiInboundRecord → Session
shop inbounds = record {
  wallets = wallet ∷ [];
  transactions = [];
  orders = [];
  subscriptions = [];
  xui_clients = [];
  servers = server ∷ [];
  inbounds = inbounds;
  plans = plan ∷ [];
  users = user ∷ [];
  discounts = discount ∷ [];
  payments = payment ∷ [];
  tickets = [];
  ticket_messages = [];
  audit_logs = [];
  broadcasts = [];
  fsm = record cleared { plan_id = some 3; config_name = some (codes "me") };
  form = blank;
  poisoned = false;
  drawn = 0;
  calls = [];
}
