-- ===== src/Servers/Archived.antt =====
-- What is left of a server that is switched off or deleted (apps/bot/handlers/admin/servers.py).
use marzbot.Base.{
  ◌≡◌, refl, ap, ◌∙◌, Bool, true, false, Option, none, some, List, [], ◌∷◌, map, arith, All,
  Bool-cases, inl, inr,
}
use marzbot.Base.Table.{find, find-passes, find-modify_self}
use marzbot.Models.{Uuid, User, XuiServerRecord, XuiInboundRecord}
use marzbot.Session.{Session, Run, Outside, Call, Text, Exn, ok, err, answer, final, log}
use marzbot.Runtime.{server_has_id}
use marzbot.Servers.{
  is_on, off_on, flipped, archived, disable_inbounds, list_servers, toggle_found, toggle_server,
}

abbrev pub IsOff : Uuid → XuiInboundRecord → Type 0
IsOff i r = is_on i r ≡ true → r.is_active ≡ false

map-off_on-IsOff : (i : Uuid) (rs : List XuiInboundRecord) → All (IsOff i) (map (off_on i) rs)
map-off_on-IsOff i [] = tt
map-off_on-IsOff i (r ∷ rs) = (one, map-off_on-IsOff i rs)
  where
    one : IsOff i (off_on i r)
    one = elim (Bool-cases (is_on i r)) [
      | inl e ↦ rw e (λ h. refl)
      | inr e ↦ rw e (λ h. absurd (ground arith))
    ]

-- How the deletion of `v` ends, by whether it has active clients, and whether it has inbounds.
abbrev pub Ends : XuiServerRecord → Session → Bool → Bool → Run (Unit {0}) → Type 0
Ends v s true has_inbounds run =
    (t : Session) × (run ≡ ok tt t)
    × (find (server_has_id v.id) t.servers ≡ some (archived v))
    × All (IsOff v.id) t.inbounds
    × (t.xui_clients ≡ s.xui_clients)
Ends v s false true run = (t : Session) × (run ≡ err Exn.integrity_error t)
Ends v s false false run =
    (t : Session) × (run ≡ ok tt t)
    × (find (server_has_id v.id) t.servers ≡ none)
    × (t.inbounds ≡ s.inbounds)

-- What the switch of `v` makes of its inbounds, by whether it was active.
abbrev pub Switched : XuiServerRecord → Session → Bool → Session → Type 0
Switched v s true t = All (IsOff v.id) t.inbounds
Switched v s false t = t.inbounds ≡ s.inbounds

module _ (o : Outside) (admin : User) (v : XuiServerRecord) (s : Session)
    (found : find (server_has_id v.id) s.servers ≡ some v)
    (answers : (c : Call) (t : Session) → o.telegram t c ≡ answer tt) where
  -- The list that the handlers end with.
  lists :
      (t : Session)
      → list_servers o t ≡ ok tt (log (Call.edit_text Text.done) (log Call.answer_callback t))
  unfolding list_servers
  lists t = rw (answers Call.answer_callback) (rw (answers (Call.edit_text Text.done)) refl)

  itself : server_has_id v.id v ≡ true
  itself = find-passes (server_has_id v.id) s.servers found

  toggles :
      toggle_server o admin v.id s ≡ toggle_found o admin (some v) (log Call.answer_callback s)
  unfolding toggle_server
  toggles = rw (answers Call.answer_callback) (
      ap (λ (w : Option XuiServerRecord). toggle_found o admin w (log Call.answer_callback s))
        found)

  -- If Telegram answers, a server is switched over: off with all its inbounds, and on without them.
  pub toggle_server-Switched :
      (active : Bool)
      → v.is_active ≡ active
      → (t : Session) × (toggle_server o admin v.id s ≡ ok tt t)
        × (find (server_has_id v.id) t.servers ≡ some (flipped v))
        × Switched v s active t
  unfolding toggle_found disable_inbounds
  toggle_server-Switched true e = (
    final (toggle_server o admin v.id s),
    rw toggles (rw e (rw (lists _) refl)),
    rw toggles (
        rw e (
          rw (lists _) (
            find-modify_self (server_has_id v.id) flipped s.servers found itself
            ∙ ap some (rw e refl)))),
    rw toggles (rw e (rw (lists _) (map-off_on-IsOff v.id s.inbounds))),
  )
  toggle_server-Switched false e = (
    final (toggle_server o admin v.id s),
    rw toggles (rw e (rw (lists _) refl)),
    rw toggles (
        rw e (
          rw (lists _) (
            find-modify_self (server_has_id v.id) flipped s.servers found itself
            ∙ ap some (rw e refl)))),
    rw toggles (rw e (rw (lists _) refl)),
  )
