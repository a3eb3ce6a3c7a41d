-- ===== src/Notifications/Silent.antt =====
-- The rows under `notify_admins` (services/notifications.py).
use marzbot.Base.{ℕ, ◌≡◌, refl, List, [], ◌∷◌, inl, inr}
use marzbot.Session.{Session, Run, Outside, Call, Text, ok, final, log, Reply-cases}
use marzbot.Notifications.{send_safely, send_each, notify_admins}

-- Nothing but the log is changed.
abbrev pub OnlyCalls : {A : Type 0} → Session → Run A → Type 0
OnlyCalls s r = final r ≡ record s { calls = (final r).calls }

send_safely-ok :
    (o : Outside) (chat : ℕ) (text : Text) (s : Session)
    → send_safely o chat text s ≡ ok tt (log (Call.send_message chat text) s)
unfolding send_safely
send_safely-ok o chat text s = elim (Reply-cases (o.telegram s (Call.send_message chat text))) [
  | inl (a, e) ↦ rw e refl
  | inr (x, e) ↦ rw e refl
]

pub send_each-OnlyCalls :
    (o : Outside) (ids : List ℕ) (text : Text) (s : Session) → OnlyCalls s (send_each o ids text s)
unfolding send_each
send_each-OnlyCalls o [] text s = refl
send_each-OnlyCalls o (i ∷ ids) text s =
    rw (send_safely-ok o i text s)
      (send_each-OnlyCalls o ids text (log (Call.send_message i text) s))

pub notify_admins-OnlyCalls :
    (o : Outside) (text : Text) (s : Session) → OnlyCalls s (notify_admins o text s)
unfolding notify_admins
notify_admins-OnlyCalls o text s = send_each-OnlyCalls o _ text s

send_each_ok :
    (o : Outside) (ids : List ℕ) (text : Text) (s : Session)
    → (t : Session) × (send_each o ids text s ≡ ok tt t) × (t ≡ record s { calls = t.calls })
unfolding send_each
send_each_ok o [] text s = (s, refl, refl)
send_each_ok o (i ∷ ids) text s =
    let (t, e, h) = send_each_ok o ids text (log (Call.send_message i text) s) in
    (t, rw (send_safely-ok o i text s) e, h)

-- It ends normally.
pub notify_admins_ok :
    (o : Outside) (text : Text) (s : Session)
    → (t : Session) × (notify_admins o text s ≡ ok tt t) × (t ≡ record s { calls = t.calls })
unfolding notify_admins
notify_admins_ok o text s = send_each_ok o _ text s
