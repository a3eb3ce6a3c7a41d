-- ===== src/Notifications.antt =====
-- services/notifications.py: `notify_admins`, which passes on no exception.
pub mod Silent
use marzbot.Base.{ℕ, Bool, false, ◌||◌, List, [], ◌∷◌, str_eq, ◌==◌, if◌then◌else◌}
use marzbot.Models.{User}
use marzbot.Session.{Action, Outside, Call, Text, pure, catch, call_telegram, gets, ◌>>=◌, ◌>>◌}

abbrev pub is_admin : User → Bool
is_admin u = str_eq u.role "admin" || str_eq u.role "owner"

abbrev pub elem : ℕ → List ℕ → Bool
elem i [] = false
elem i (j ∷ l) = i == j || elem i l

abbrev pub add_id : ℕ → List ℕ → List ℕ
add_id i l = if elem i l then l else i ∷ l

-- The set of the admins' ids, the owner of the settings among them.
unfoldable pub admin_ids : List User → List ℕ → List ℕ
admin_ids [] ids = ids
admin_ids (u ∷ us) ids = admin_ids us (if is_admin u then add_id u.telegram_id ids else ids)

module _ (o : Outside) where
  -- A message whose failure is swallowed.
  unfoldable pub send_safely : ℕ → Text → Action (Unit {0})
  send_safely chat text = catch (call_telegram o (Call.send_message chat text)) (λ e. pure tt)

  unfoldable pub send_each : List ℕ → Text → Action (Unit {0})
  unfolding send_safely
  send_each [] text = pure tt
  send_each (i ∷ ids) text = do send_safely i text; send_each ids text

  unfoldable pub notify_admins : Text → Action (Unit {0})
  unfolding send_each admin_ids
  notify_admins text = do
    let owner : List ℕ = if o.owner_telegram_id == 0 then [] else o.owner_telegram_id ∷ []
    ids ← gets (λ s. admin_ids s.users owner)
    send_each ids text
