-- ===== src/Sync/Grouping.antt =====
-- The groups that `sync_all_subscription_states` (apps/worker/jobs/subscriptions.py) forms.
use marzbot.Base.{
  ℕ, ◌+◌, ◌≡◌, refl, Bool, some, List, [], ◌∷◌, ◌++◌, arith, All, is_some, length, length-append,
  Option-cases, inl, inr,
}
use marzbot.Base.Table.{count}
use marzbot.Models.{Uuid, Subscription}
use marzbot.Session.{Session}
use marzbot.Sync.Jobs.{target, append_to, group_by_server}

-- A group of rows that are all synchronised with its server.
abbrev pub IsGrouped : Session → List (Uuid × List Subscription) → Type 0
IsGrouped s [] = Unit
IsGrouped s ((i, rs) ∷ groups) = All (λ r. target s r ≡ some i) rs × IsGrouped s groups

All-append :
    (s : Session) (i : Uuid) (r : Subscription) (rs : List Subscription)
    → target s r ≡ some i
    → All (λ x. target s x ≡ some i) rs
    → All (λ x. target s x ≡ some i) (rs ++ (r ∷ []))
All-append s i r [] e h = (e, tt)
All-append s i r (x ∷ rs) e h = (h.0, All-append s i r rs e (h.1))

append_to-IsGrouped :
    (s : Session) (i : Uuid) (r : Subscription) (groups : List (Uuid × List Subscription))
    → target s r ≡ some i
    → IsGrouped s groups
    → IsGrouped s (append_to i r groups)
append_to-IsGrouped s i r [] e h = ((e, tt), tt)
append_to-IsGrouped s i r ((j, rs) ∷ groups) e h =
    ground (arith, All-append s j r rs, append_to-IsGrouped s i r groups)

-- How many rows the groups hold, and how many have a server to be synchronised with.
abbrev pub total : List (Uuid × List Subscription) → ℕ
total [] = 0
total ((i, rs) ∷ groups) = length rs + total groups

abbrev pub has_target : Session → Subscription → Bool
has_target s r = is_some (target s r)

total-append_to :
    (i : Uuid) (r : Subscription) (groups : List (Uuid × List Subscription))
    → total (append_to i r groups) ≡ total groups + 1
total-append_to i r [] = refl
total-append_to i r ((j, rs) ∷ groups) =
    ground (arith, total-append_to i r groups, length-append rs (r ∷ []))

group_by_server_appends :
    (s : Session) (rs : List Subscription) (groups : List (Uuid × List Subscription))
    → IsGrouped s groups
    → IsGrouped s (group_by_server s rs groups)
      × (total (group_by_server s rs groups) ≡ total groups + count (has_target s) rs)
unfolding group_by_server
group_by_server_appends s [] groups h = (h, omega arith)
group_by_server_appends s (r ∷ rs) groups h = elim (Option-cases (target s r)) [
  | inl e ↦
      let (sound, sum) = group_by_server_appends s rs groups h in rw e (sound, omega (arith, sum))
  | inr (i, e) ↦
      let (sound, sum) =
        group_by_server_appends s rs (append_to i r groups)
          (append_to-IsGrouped s i r groups e h) in
      rw e (sound, omega (arith, sum, total-append_to i r groups))
]

-- The groups are sound and complete: each row of a group is synchronised with the group's server,
-- and the groups hold just as many rows as have an active server with credentials.
pub group_by_server-IsGrouped :
    (s : Session) (rs : List Subscription)
    → IsGrouped s (group_by_server s rs [])
      × (total (group_by_server s rs []) ≡ count (has_target s) rs)
group_by_server-IsGrouped s rs =
    let (sound, sum) = group_by_server_appends s rs [] tt in (sound, omega (arith, sum))
