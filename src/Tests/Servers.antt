-- ===== src/Tests/Servers.antt =====
-- The servers of the administration.
use marzbot.Base.{◌≡◌, refl, none, some, [], ◌∷◌, List}
use marzbot.Base.Text.{codes}
use marzbot.Session.{Session, Outside, RemoteInbound, ok, answer, final}
use marzbot.Servers.{sync_server_inbounds}
use marzbot.Servers.Mirrored.{Mirrors, elsewhere, sync_server_inbounds-Mirrors}
use marzbot.Servers.Settings.{new_url, edit_url_receive}
use marzbot.Servers.Saved.{IsTested, edit_url_receive-IsTested}
use marzbot.Tests.World.{shop, user, server, inbound, world}

-- The panel has another inbound than the row says.
abbrev theirs : List RemoteInbound
theirs = record { id = 12; remark = some (codes "new"); protocol = none; port = some 443 } ∷ []

abbrev serving : Outside
serving = record (world (answer tt)) { remote_inbounds = λ s c. answer theirs }

sync_server_inbounds-Mirrors_example :
    (t : Session) × (sync_server_inbounds serving user 5 (shop (inbound ∷ [])) ≡ ok tt t)
    × Mirrors 5 theirs t.inbounds
    × (elsewhere 5 t.inbounds ≡ elsewhere 5 (shop (inbound ∷ [])).inbounds)
sync_server_inbounds-Mirrors_example =
    sync_server_inbounds-Mirrors serving user server theirs (shop (inbound ∷ [])) refl refl
      (λ t. refl) (λ t. refl) (refl, tt)

abbrev moving : Session
moving = record (shop []) { form = record ((shop []).form) { server_id = some 5 } }

edit_url_receive-IsTested_example :
    IsTested serving
      (new_url (codes "http://c.d/"))
      moving
      (final (edit_url_receive serving user (codes "http://c.d/") moving))
edit_url_receive-IsTested_example =
    edit_url_receive-IsTested serving user (codes "http://c.d/") moving
