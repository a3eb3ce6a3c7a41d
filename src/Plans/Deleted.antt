-- ===== src/Plans/Deleted.antt =====
-- What the deletion of a plan (apps/bot/handlers/admin/plans.py) leaves.
use marzbot.Base.{◌≡◌, Bool, true, false, none, All}
use marzbot.Base.Table.{find, modify}
use marzbot.Models.{Uuid, Subscription}
use marzbot.Session.{Session}
use marzbot.Provisioning.{plan_has_id}
use marzbot.Plans.{names, inactive}

-- No subscription refers to the plan.
abbrev pub IsUnplanned : Uuid → Subscription → Type 0
IsUnplanned i r = names i r.plan_id ≡ false

-- What is left, by whether an order refers to the plan.
abbrev pub Deleted : (begun : Session) → Uuid → Session → Bool → Session → Type 0
Deleted begun i s true v =
    (v.plans ≡ modify (plan_has_id i) inactive begun.plans)
    × (v.orders ≡ begun.orders)
    × (v.subscriptions ≡ begun.subscriptions)
    × (v.audit_logs ≡ begun.audit_logs)
Deleted begun i s false v =
    (find (plan_has_id i) v.plans ≡ none)
    × All (IsUnplanned i) v.subscriptions
    × (v.orders ≡ s.orders)
