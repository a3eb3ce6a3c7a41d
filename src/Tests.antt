-- ===== src/Tests.antt =====
-- The theorems at concrete rows.
mod World
mod Wallet
mod Purchase
mod Payment
mod Prices
mod Provisioning
mod Subscriptions
mod Configs
mod Renewals
mod Panels
mod Dialogue
mod Accounts
mod Support
mod Plans
mod Broadcast
mod Servers
mod ExpiryNotices
