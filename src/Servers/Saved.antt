-- ===== src/Servers/Saved.antt =====
-- What the change of an address (apps/bot/handlers/admin/servers.py) does to the servers.
use marzbot.Base.{◌≡◌, refl, true, Option, none, some, List, arith, ◌⊎◌, inl, inr, Bool-cases}
use marzbot.Base.Table.{find, modify}
use marzbot.Models.{Uuid, Str, User, XuiServerRecord}
use marzbot.Session.{
  Session, Outside, RemoteInbound, Reply, Call, answer, failure, final, proceed, or_raise, Exn,
}
use marzbot.Runtime.{server_has_id}
use marzbot.Servers.{fetched}
use marzbot.Servers.Settings.{new_url, move_to, test_url, url_for, edit_url_receive}

-- The servers stay, or the one of the form, which has credentials, gets an address at which its
-- panel answered.
abbrev pub IsTested : Outside → Str → Session → Session → Type 0
IsTested o url s t =
    (t.servers ≡ s.servers)
    ⊎ ((i : Uuid) × (v : XuiServerRecord) × (ms : List RemoteInbound) × (s.form.server_id ≡ some i)
        × (find (server_has_id i) s.servers ≡ some v)
        × (v.has_credentials ≡ true)
        × (o.remote_inbounds s (Call.get_inbounds url) ≡ answer ms)
        × (t.servers ≡ modify (server_has_id v.id) (λ w. record w { base_url = url }) s.servers))

module _ (o : Outside) (admin : User) where
  test_url-IsTested :
      (url : Str) (i : Uuid) (v : Option XuiServerRecord) (s : Session)
      → s.form.server_id ≡ some i
      → find (server_has_id i) s.servers ≡ v
      → IsTested o url s (final (test_url o admin url v s))
  unfolding test_url move_to
  test_url-IsTested url i none s form found = inl (ground arith)
  test_url-IsTested url i (some v) s form found = elim (Bool-cases v.has_credentials) [
    | inl e ↦ rw e (asked (o.remote_inbounds s (Call.get_inbounds url)) refl e)
    | inr e ↦ rw e (inl (ground arith))
  ]
    where
      asked :
          (r : Reply (List RemoteInbound))
          → o.remote_inbounds s (Call.get_inbounds url) ≡ r
          → v.has_credentials ≡ true
          → IsTested o url s (final (proceed (fetched o url s) (move_to o admin url v)))
      asked (answer ms) e h = rw e (inr (i, v, ms, form, found, h, refl, ground arith))
      asked (failure x) e h = rw e (inl (ground arith))

  -- A new address is stored only if the panel at it has answered: however the handler ends, the
  -- servers are as before, or the one that the form has chosen, with
  -- credentials, has an address that was tested.
  pub edit_url_receive-IsTested :
      (text : Str) (s : Session)
      → IsTested o (new_url text) s (final (edit_url_receive o admin text s))
  unfolding edit_url_receive url_for
  edit_url_receive-IsTested text s = for_chosen s.form.server_id refl
    where
      for_chosen :
          (i : Option Uuid)
          → s.form.server_id ≡ i
          → IsTested o
              (new_url text)
              s
              (final (proceed (or_raise i Exn.key_error s) (url_for o admin (new_url text))))
      for_chosen none form = inl refl
      for_chosen (some i) form =
          test_url-IsTested (new_url text) i (find (server_has_id i) s.servers) s form refl
