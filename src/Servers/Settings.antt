-- ===== src/Servers/Settings.antt =====
-- apps/bot/handlers/admin/servers.py: the dialogues that change the limit, the domains and the address
-- of a server. `UUID` of the id that the conversation keeps is the id; what `safe_edit_or_send`
-- shows is left out, and a stored password that cannot be decrypted. A button is shown in the
-- dialogue, but no filter binds it to a state.
use marzbot.Base.{ℕ, true, false, Option, none, some, List, [], ◌∷◌, ◌==◌, if◌then◌else◌}
use marzbot.Base.Int.{ℤ, pos, negsuc}
use marzbot.Base.Text.{strip}
use marzbot.Base.Table.{find}
use marzbot.Models.{Uuid, Str, User, XuiServerRecord}
use marzbot.Session.{
  Action, Exn, Outside, RemoteInbound, Call, Text, FormState, Form, pure, gets, or_raise,
  modify_session, call_telegram, clear_form, update_form, log_action, ◌>>=◌, ◌>>◌,
}
use marzbot.Runtime.{server_has_id}
use marzbot.Plans.{Numbers}
use marzbot.Servers.{set_server, fetched}

abbrev pub at_server : FormState → Uuid → Form → Form
at_server st i f = record f { state = st; server_id = some i }

abbrev pub with_config_domain : Option Str → Form → Form
with_config_domain d f = record f { state = FormState.waiting_for_sub_domain; config_domain = d }

abbrev pub limited : Option ℕ → XuiServerRecord → XuiServerRecord
limited n v = record v { max_clients = n }

abbrev pub with_domains : Option Str → Option Str → XuiServerRecord → XuiServerRecord
with_domains config sub v = record v { config_domain = config; sub_domain = sub }

abbrev pub moved_to : Str → XuiServerRecord → XuiServerRecord
moved_to url v = record v { base_url = url }

-- A limit that is not negative; `none` is the `ValueError`.
abbrev pub as_limit : Option ℤ → Option ℕ
as_limit none = none
as_limit (some (pos n)) = some n
as_limit (some (negsuc n)) = none

-- `rstrip("/")`
abbrev pub keep_unless_slash : ℕ → Str → Str
keep_unless_slash c [] = if c == b'/' then [] else c ∷ []
keep_unless_slash c (d ∷ s) = c ∷ (d ∷ s)

abbrev pub rstrip_slash : Str → Str
rstrip_slash [] = []
rstrip_slash (c ∷ s) = keep_unless_slash c (rstrip_slash s)

abbrev pub new_url : Str → Str
new_url text = rstrip_slash (strip text)

module _ (o : Outside) (admin : User) where
  abbrev pub say : Text → Action (Unit {0})
  say text = call_telegram o (Call.send_message admin.telegram_id text)

  unfoldable pub edit_limit_start : Uuid → Action (Unit {0})
  edit_limit_start i = do
    call_telegram o Call.answer_callback
    update_form (at_server FormState.waiting_for_max_clients i)

  -- `_save_limit`; a server that is gone is passed over.
  unfoldable pub save_limit : Option ℕ → Action (Unit {0})
  save_limit limit = do
    kept ← gets (λ s. s.form.server_id)
    clear_form
    i ← or_raise kept Exn.key_error
    modify_session (set_server i (limited limit))
    say Text.done

  unfoldable pub limit_unlimited : Action (Unit {0})
  unfolding save_limit
  limit_unlimited = call_telegram o Call.answer_callback >> save_limit none

  unfoldable pub limit_or : Option ℕ → Action (Unit {0})
  unfolding save_limit
  limit_or none = say Text.invalid_input
  limit_or (some n) = save_limit (some n)

  -- A text, with what `int` makes of it stripped.
  unfoldable pub edit_limit_value : Numbers → Str → Action (Unit {0})
  unfolding limit_or
  edit_limit_value n text = limit_or (as_limit (n.read_int (strip text)))

  unfoldable pub edit_domain_start : Uuid → Action (Unit {0})
  edit_domain_start i = do
    call_telegram o Call.answer_callback
    update_form (at_server FormState.waiting_for_config_domain i)

  unfoldable pub edit_domain_config : Str → Action (Unit {0})
  edit_domain_config text = do update_form (with_config_domain (some (strip text))); say Text.done

  unfoldable pub skip_config_domain : Action (Unit {0})
  skip_config_domain = do
    call_telegram o Call.answer_callback
    update_form (with_config_domain none)
    say Text.done

  -- `_save_domains`
  unfoldable pub save_domains : Option Str → Action (Unit {0})
  save_domains sub_domain = do
    kept ← gets (λ s. s.form)
    clear_form
    i ← or_raise kept.server_id Exn.key_error
    modify_session (set_server i (with_domains kept.config_domain sub_domain))
    say Text.done

  unfoldable pub edit_domain_sub : Str → Action (Unit {0})
  unfolding save_domains
  edit_domain_sub text = save_domains (some (strip text))

  unfoldable pub skip_sub_domain : Action (Unit {0})
  unfolding save_domains
  skip_sub_domain = call_telegram o Call.answer_callback >> save_domains none

  unfoldable pub start_url : Uuid → Option XuiServerRecord → Action (Unit {0})
  start_url i none = pure tt
  start_url i (some v) = update_form (at_server FormState.waiting_for_new_base_url i)

  unfoldable pub edit_url_start : Uuid → Action (Unit {0})
  unfolding start_url
  edit_url_start i = do
    call_telegram o Call.answer_callback
    v ← gets (λ s. find (server_has_id i) s.servers)
    start_url i v

  -- The address is taken only if the panel at it answers.
  unfoldable pub move_to : Str → XuiServerRecord → Option (List RemoteInbound) → Action (Unit {0})
  move_to url v none = say Text.invalid_input
  move_to url v (some ms) = do
    modify_session (set_server v.id (moved_to url))
    log_action admin.id "edit_server_url" "server" v.id
    clear_form
    say Text.done

  unfoldable pub test_url : Str → Option XuiServerRecord → Action (Unit {0})
  unfolding move_to
  test_url url none = clear_form >> say Text.done
  test_url url (some v) = elim v.has_credentials [
    | false ↦ clear_form >> say Text.done
    | true ↦ do ms ← fetched o url; move_to url v ms
  ]

  unfoldable pub url_for : Str → Uuid → Action (Unit {0})
  unfolding test_url
  url_for url i = do v ← gets (λ s. find (server_has_id i) s.servers); test_url url v

  unfoldable pub edit_url_receive : Str → Action (Unit {0})
  unfolding url_for
  edit_url_receive text = do
    kept ← gets (λ s. s.form.server_id)
    i ← or_raise kept Exn.key_error
    url_for (new_url text) i
