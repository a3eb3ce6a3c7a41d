-- ===== src/Runtime.antt =====
-- services/xui/runtime.py: the subscription link of a client, and `ensure_inbound_server_loaded`;
-- with the `rsplit("/", 1)[-1]` by which the jobs and handlers read the `subId` of a link back.
-- `build_vless_uri` is not modelled.
use marzbot.Base.{
  ℕ, ◌≡◌, refl, Bool, true, false, Option, none, some, [], ◌∷◌, ◌++◌, arith, ◌==◌, ==_iff,
  if◌then◌else◌, All,
}
use mathlib.Core.List.{append_assoc}
use marzbot.Base.Text.{codes, strip}
use marzbot.Base.Table.{find}
use marzbot.Models.{Uuid, Str, XuiServerRecord, XuiInboundRecord}
use marzbot.Session.{Action, Exn, Outside, raise_if, pure, gets, or_raise, ◌>>=◌, ◌>>◌}

-- The rest of a text behind a prefix.
abbrev pub drop_prefix : Str → Str → Option Str
drop_prefix [] s = some s
drop_prefix (p ∷ ps) [] = none
drop_prefix (p ∷ ps) (c ∷ s) = if p == c then drop_prefix ps s else none

abbrev or_else : Option Str → Str → Str
or_else none d = d
or_else (some s) d = s

-- `re.sub(r"^https?://", "", url)`
unfoldable pub strip_scheme : Str → Str
strip_scheme url =
    or_else (drop_prefix (codes "https://") url) (or_else (drop_prefix (codes "http://") url) url)

-- `s.split(c)[0]`
unfoldable pub before : ℕ → Str → Str
before c [] = []
before c (d ∷ s) = if d == c then [] else d ∷ before c s

unfoldable pub extract_host : Str → Str
unfolding strip_scheme before
extract_host base_url = before b':' (before b'/' (strip_scheme (strip base_url)))

-- `server.sub_domain`, if it is there and not empty, else the host of the panel.
abbrev pub sub_host : Option Str → Str → Str
sub_host none base_url = extract_host base_url
sub_host (some []) base_url = extract_host base_url
sub_host (some (c ∷ s)) base_url = c ∷ s

module _ (o : Outside) where
  unfoldable pub build_sub_link : XuiServerRecord → Str → Str
  build_sub_link server sub_id =
      codes "http://"
      ++ (sub_host server.sub_domain server.base_url
          ++ (codes ":" ++ (o.int_str server.subscription_port ++ (codes "/sub/" ++ sub_id))))

-- `s.rsplit(c, 1)[-1]`: what stands behind the last `c`, or all of it.
unfoldable pub after_last : ℕ → Str → Str → Str
after_last c tail [] = tail
after_last c tail (d ∷ s) = after_last c (if d == c then s else tail) s

abbrev pub contains : ℕ → Str → Bool
contains c [] = false
contains c (d ∷ s) = if d == c then true else contains c s

-- `sub_link or record_link or ""`, where an empty text counts as none.
abbrev pub first_link : Option Str → Option Str → Str
first_link (some (c ∷ s)) r = c ∷ s
first_link _ (some s) = s
first_link _ none = []

-- The `subId` that an update of a client sends back.
unfoldable pub existing_sub_id : Option Str → Option Str → Str
unfolding after_last
existing_sub_id link record_link =
    let current = first_link link record_link in
    if contains b'/' current then after_last b'/' current current else []

abbrev pub inbound_has_id : Uuid → XuiInboundRecord → Bool
inbound_has_id i r = r.id == i

abbrev pub server_has_id : Uuid → XuiServerRecord → Bool
server_has_id i r = r.id == i

-- `ensure_inbound_server_loaded`
unfoldable pub ensure_inbound_server_loaded : XuiInboundRecord → Action XuiServerRecord
ensure_inbound_server_loaded inbound = do
  found ← gets (λ s. find (server_has_id inbound.server_id) s.servers)
  server ← or_raise found Exn.value_error
  raise_if (elim server.has_credentials [ true ↦ false | false ↦ true ]) Exn.value_error
  pure server

module _ (c : ℕ) where
  after_last_none : (t s : Str) → All (λ d. (d == c) ≡ false) s → after_last c t s ≡ t
  unfolding after_last
  after_last_none t [] h = refl
  after_last_none t (d ∷ s) h = rw h.0 (after_last_none t s h.1)

  after_last-append :
      (t s id : Str) → All (λ d. (d == c) ≡ false) id → after_last c t (s ++ (c ∷ id)) ≡ id
  unfolding after_last
  after_last-append t [] id h = rw ((==_iff c c).1 refl, after_last) (after_last_none id id h)
  after_last-append t (d ∷ s) id h = after_last-append (if d == c then s ++ (c ∷ id) else t) s id h

  contains-append : (s id : Str) → contains c (s ++ (c ∷ id)) ≡ true
  contains-append [] id = ground arith
  contains-append (d ∷ s) id = ground (arith, contains-append s id)

-- All of a link but the slash before its `subId`, and the `subId`.
link_parts :
    (o : Outside) (server : XuiServerRecord)
    → (s : Str) × ((id : Str) → build_sub_link o server id ≡ b'h' ∷ (s ++ (b'/' ∷ id)))
unfolding build_sub_link
link_parts o server = (
  codes "ttp://"
      ++ (sub_host server.sub_domain server.base_url
          ++ (codes ":" ++ (o.int_str server.subscription_port ++ codes "/sub"))),
  λ id. simp append_assoc,
)

-- The `subId` that is read back from a link is the one that the link was built with, whatever the
-- server, if it holds no slash.
pub existing_sub_id-build_sub_link :
    (o : Outside) (server : XuiServerRecord) (id : Str) (record_link : Option Str)
    → All (λ d. (d == b'/') ≡ false) id
    → existing_sub_id (some (build_sub_link o server id)) record_link ≡ id
unfolding existing_sub_id
existing_sub_id-build_sub_link o server id record_link h =
    let (s, e) = link_parts o server in
    rw (e id, contains-append b'/' (b'h' ∷ s) id)
      (after_last-append b'/' (b'h' ∷ (s ++ (b'/' ∷ id))) (b'h' ∷ s) id h)
