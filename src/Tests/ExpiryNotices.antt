-- ===== src/Tests/ExpiryNotices.antt =====
-- A notice to the owner of a subscription that ends within a day.
use marzbot.Base.{some, [], ◌∷◌}
use marzbot.Models.{Subscription, SubscriptionStatus}
use marzbot.Session.{Session}
use marzbot.ExpiryNotices.{send_expiry_notifications}
use marzbot.ExpiryNotices.Addressed.{Tells, IsDueRow, send_expiry_notifications-Tells}
use marzbot.Tests.World.{shop}
use marzbot.Tests.Purchase.{up}
use marzbot.Tests.Configs.{running}

abbrev ending : Subscription
ending = record running { status = SubscriptionStatus.active; ends_at = some 3600 }

abbrev busy : Session
busy = record (shop []) { subscriptions = ending ∷ [] }

send_expiry_notifications-Tells_example :
    Tells (IsDueRow 0 busy) busy (send_expiry_notifications up busy)
send_expiry_notifications-Tells_example = send_expiry_notifications-Tells up busy
