-- ===== src/Provisioning/Checks.antt =====
-- The part of `provision_subscription` before the panel is called.
use marzbot.Base.{ℕ, zero, suc, ◌≡◌, refl, arith}
use marzbot.Models.{Uuid}
use marzbot.Session.{Session, Run, Outside, final}
use marzbot.Runtime.{ensure_inbound_server_loaded}
use marzbot.Provisioning.{choose_inbound}
use marzbot.Provisioning.Identity.{attempt, candidate, generate_unique_client_identity}

pub final-choose_inbound :
    (user_id plan_id order_id : Uuid) (s : Session)
    → final (choose_inbound user_id plan_id order_id s) ≡ s
unfolding choose_inbound ensure_inbound_server_loaded
final-choose_inbound user_id plan_id order_id s = ground arith

-- The draws that have been made are all that has changed.
abbrev pub OnlyDraws : {A : Type 0} → Session → Run A → Type 0
OnlyDraws s r = final r ≡ record s { drawn = (final r).drawn }

attempt-OnlyDraws : (o : Outside) (rounds : ℕ) (s : Session) → OnlyDraws s (attempt o rounds s)
unfolding attempt candidate
attempt-OnlyDraws o zero s = refl
attempt-OnlyDraws o (suc rounds) s =
    ground (arith, attempt-OnlyDraws o rounds (final (candidate o s)))

pub generate_unique_client_identity-OnlyDraws :
    (o : Outside) (s : Session) → OnlyDraws s (generate_unique_client_identity o s)
unfolding generate_unique_client_identity
generate_unique_client_identity-OnlyDraws o s = attempt-OnlyDraws o 10 s
