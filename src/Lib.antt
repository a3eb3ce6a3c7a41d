-- ===== src/Lib.antt =====
-- Marzbot: a Telegram bot, a web API and a worker that sell VPN subscriptions on Sanaei X-UI panels,
-- paid from a wallet or through NOWPayments.
--
-- The money's way through the program: services/wallet/manager.py is the only writer of balances;
-- apps/bot/handlers/user/purchase.py charges a plan to the wallet and calls
-- services/provisioning/manager.py, which adds a client to a panel and the rows that describe it;
-- services/payment.py credits a payment and may buy a plan at once, for the callback
-- apps/api/routes/webhooks/nowpayments.py and the job apps/worker/jobs/payments.py.
--
-- The files:
--   Base          shared names; Base/Int signed integers, Base/Decimal Python's Decimal.quantize,
--                 Base/Table rows in lists, Base/Text texts as code points
--   Models        the rows (models/*.py)
--   Session       one database session: rows, exceptions, calls to the outside, begin_nested, and
--                 commit or rollback (apps/bot/middlewares/database.py)
--   Wallet        WalletManager.process_transaction; Wallet/Branches, Wallet/Amounts, Wallet/Ledger
--                 and Wallet/Settled
--   Pricing       the price after a discount
--   Discount      DiscountRepository (repositories/discount.py); Discount/Limits
--   Runtime       subscription links (services/xui/runtime.py)
--   Provisioning  ProvisioningManager (services/provisioning/manager.py); Provisioning/Identity,
--                 Provisioning/Checks, Provisioning/Contract, Provisioning/Capacity; and
--                 Provisioning/Refund with Provisioning/Refund/Outcome
--   Notifications notify_admins (services/notifications.py)
--   Purchase      pay_with_wallet and _process_wallet_purchase; Purchase/Finalize is
--                 _finalize_purchase, Purchase/Stages, Purchase/Messages and Purchase/Outcome its laws;
--                 Purchase/Gateway the purchase by invoice, with Purchase/Gateway/Invoice;
--                 Purchase/Dialogue the dialogue, with Purchase/Dialogue/Kept,
--                 Purchase/Dialogue/Orderly and Purchase/Dialogue/Carried
--   Payment       process_successful_payment; Payment/Webhook the callback, Payment/Poll the job,
--                 Payment/Credit, Payment/Callback and Payment/Poll/Silence their laws
--   MyConfigs     the handlers that change a configuration (apps/bot/handlers/user/my_configs.py);
--                 MyConfigs/Ending cancels and deletes, MyConfigs/Usage reads the usage;
--                 MyConfigs/Ownership has the router's actions; MyConfigs/Rows, MyConfigs/Links,
--                 MyConfigs/Switch, MyConfigs/Cancel, MyConfigs/Sparing and MyConfigs/Parts are
--                 their laws
--   Renewal       renew_confirm_payment (apps/bot/handlers/user/renewal.py); Renewal/Charge
--   PanelClient   SanaeiXUIClient (services/xui/client.py); PanelClient/Attempts,
--                 PanelClient/Errors, PanelClient/Names
--   Sync          sync_xui_usage_and_status (apps/worker/jobs/subscriptions.py); Sync/Jobs the job
--                 and get_realtime_usage; Sync/Expiry, Sync/Grouping, Sync/Realtime their laws
--   Accounts      UserRepository and the two access middlewares (repositories/user.py,
--                 apps/bot/middlewares/user.py, admin.py); Accounts/Manage what an administrator
--                 does to a user (apps/bot/handlers/admin/users.py); Accounts/Access,
--                 Accounts/Balance and Accounts/Registry are their laws
--   Support       tickets of the users (apps/bot/handlers/user/support.py, repositories/ticket.py);
--                 Support/Reply the replies (apps/bot/handlers/admin/support.py); Support/Counting,
--                 Support/Single and Support/Reopened
--   Plans         the changes of plans (apps/bot/handlers/admin/plans.py); Plans/Normal the reading of
--                 numbers, Plans/Dialogue the dialogue that makes a plan; Plans/Input,
--                 Plans/Positive, Plans/Sound and Plans/Deleted are their laws
--   Broadcast     process_broadcast_queue (apps/worker/jobs/broadcast.py); Broadcast/Progress and
--                 Broadcast/Drained
--   Servers       the synchronisation, activation and deletion of servers
--                 (apps/bot/handlers/admin/servers.py); Servers/Settings the dialogues for their
--                 limit, domains and address; Servers/Mirrored, Servers/Archived and Servers/Saved
--   ExpiryNotices send_expiry_notifications (apps/worker/jobs/expiry_notifications.py);
--                 ExpiryNotices/Addressed
--   Tests         concrete rows, and the theorems applied to them
--
-- State and errors: a function of the source that works on a session is an `Action`, a function from
-- a `Session` to a `Run`, which is a value or an exception, each with the session left. An
-- exception keeps what was written before it; `nested` and `managed` undo it. The world outside,
-- the `Outside` record, is a parameter: drawn UUIDs, the clock, and the answers of panels, of
-- Telegram and of the payment provider, which may be any exception. Every such call is logged.
--
-- Bounds: money is an integer number of units of 10^-8, the scale of `Numeric(18, 8)`; that column's
-- 18 digits are not bounded here, nor is `Decimal` by its 28 digits. A loop over rows is recursion
-- on the list. The search for an identity makes ten rounds, and a request to a panel three attempts,
-- as the source does.
--
-- Not modelled: the texts of messages, HTTP and JSON, the signature's HMAC (its result is an
-- argument), row locks and two sessions at once, and the parts of the bot that only show data;
-- of what changes data, the top-up dialogue, the stored settings, the discount codes of the
-- administration, the dialogues that add a server or change its credentials, the queueing of
-- broadcasts, the retargeting, and the health and backup jobs. A letter beyond ASCII keeps its
-- case.
pub mod Base
pub mod Models
pub mod Session
pub mod Wallet
pub mod Pricing
pub mod Discount
pub mod Runtime
pub mod Provisioning
pub mod Notifications
pub mod Purchase
pub mod Payment
pub mod Sync
pub mod MyConfigs
pub mod Renewal
pub mod PanelClient
pub mod Accounts
pub mod Support
pub mod Plans
pub mod Broadcast
pub mod Servers
pub mod ExpiryNotices
pub mod Tests
