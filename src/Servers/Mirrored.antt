-- ===== src/Servers/Mirrored.antt =====
-- What a synchronisation (apps/bot/handlers/admin/servers.py) makes of the inbounds of a server.
use marzbot.Base.{
  ℕ, ◌+◌, ◌≡◌, refl, ap, ◌∙◌, Bool, true, false, not, Option, none, some, List, [], ◌∷◌, map, arith,
  ==_iff, ◌==◌, ◌&&◌, if◌then◌else◌, sym, All, Bool-cases, inl, inr,
}
use marzbot.Base.Table.{find, find-passes, select}
use mathlib.Core.Option.{some-injective}
use mathlib.Core.Path.{subst}
use marzbot.Models.{Uuid, User, XuiServerRecord, XuiInboundRecord}
use marzbot.Session.{Session, Outside, RemoteInbound, Call, ok, answer, log, final, log_action}
use marzbot.Runtime.{server_has_id}
use marzbot.Servers.{
  is_on, remote_by_id, updated_by, synced, is_kept, stands_for, is_known, is_new, new_inbound,
  add_inbounds, sync_remote_inbounds, sync_from, sync_found, sync_server_inbounds,
}

-- The row of a server's inbound shows what the panel has: its values, and active, or inactive if
-- the panel has no such inbound.
abbrev Shows : Option RemoteInbound → XuiInboundRecord → Type 0
Shows none r = r.is_active ≡ false
Shows (some m) r =
    (r.remark ≡ m.remark) × (r.protocol ≡ m.protocol) × (r.port ≡ m.port) × (r.is_active ≡ true)

-- The row that stands for an inbound of the server `i`: of two with one remote id the latest.
abbrev IsMirrored : Uuid → List RemoteInbound → List XuiInboundRecord → Type 0
IsMirrored i ms rs =
    (n : ℕ) (r : XuiInboundRecord) → find (stands_for i n) rs ≡ some r → Shows (remote_by_id ms n) r

abbrev IsKnown : Uuid → List XuiInboundRecord → RemoteInbound → Type 0
IsKnown i rs m = is_known i rs m ≡ true

-- The row of every inbound of the server shows what the panel has, and every inbound of the panel
-- has a row.
abbrev pub Mirrors : Uuid → List RemoteInbound → List XuiInboundRecord → Type 0
Mirrors i ms rs = IsMirrored i ms rs × All (IsKnown i rs) ms

-- The rows of the other servers.
abbrev pub elsewhere : Uuid → List XuiInboundRecord → List XuiInboundRecord
elsewhere i rs = select (λ r. not (is_on i r)) rs

-- The panel tells its inbounds apart.
abbrev pub IsDistinct : List RemoteInbound → Type 0
IsDistinct ms = All (λ m. remote_by_id ms m.id ≡ some m) ms

All-select :
    {A : Type 0} (P : A → Type 0) (p : A → Bool) (xs : List A) → All P xs → All P (select p xs)
All-select P p [] all = tt
All-select P p (x ∷ xs) all = elim (Bool-cases (p x)) [
  | inl e ↦ rw e (all.0, All-select P p xs all.1)
  | inr e ↦ rw e (All-select P p xs all.1)
]

module _ {A : Type 0} (p : A → Bool) (f : A → A) (keeps : (a : A) → p (f a) ≡ p a) where
  -- A change that keeps the test is seen in the row that the test finds.
  find-map :
      (xs : List A) {a : A}
      → find p (map f xs) ≡ some a
      → (b : A) × (find p xs ≡ some b) × (f b ≡ a)
  find-map [] e = absurd (ground arith)
  find-map (x ∷ xs) {a} e = elim (Bool-cases (p x)) [
    | inl h ↦
        let here : some (f x) ≡ some a = rw (keeps x ∙ h) at e in
        (x, rw h refl, some-injective _ _ here)
    | inr h ↦
        let (b, found, same) = find-map xs {a = a} (rw (keeps x ∙ h) at e) in (b, rw h found, same)
  ]

module _ (i : Uuid) (ms : List RemoteInbound) (all : List XuiInboundRecord) where
  by_test :
      (b : Bool) (r : XuiInboundRecord)
      → let r' = if b then updated_by (remote_by_id ms r.xui_inbound_remote_id) r else r in
        (r'.server_id ≡ r.server_id) × (r'.xui_inbound_remote_id ≡ r.xui_inbound_remote_id)
  by_test false r = (refl, refl)
  by_test true r = updated (remote_by_id ms r.xui_inbound_remote_id)
    where
      updated :
          (m : Option RemoteInbound)
          → ((updated_by m r).server_id ≡ r.server_id)
            × ((updated_by m r).xui_inbound_remote_id ≡ r.xui_inbound_remote_id)
      updated none = (refl, refl)
      updated (some m) = (refl, refl)

  synced_keeps :
      (r : XuiInboundRecord)
      → ((synced i ms all r).server_id ≡ r.server_id)
        × ((synced i ms all r).xui_inbound_remote_id ≡ r.xui_inbound_remote_id)
  unfolding synced
  synced_keeps r =
      by_test (is_on i r && is_kept (find (stands_for i r.xui_inbound_remote_id) all) r) r

  stands_for-synced :
      (n : ℕ) (r : XuiInboundRecord) → stands_for i n (synced i ms all r) ≡ stands_for i n r
  stands_for-synced n r = let (a, b) = synced_keeps r in rw (a, b) refl

  is_known-synced :
      (m : RemoteInbound) (rs : List XuiInboundRecord)
      → is_known i rs m ≡ true
      → is_known i (map (synced i ms all) rs) m ≡ true
  is_known-synced m [] h = h
  is_known-synced m (r ∷ rs) h = elim (Bool-cases (stands_for i m.id r)) [
    | inl e ↦ rw (stands_for-synced m.id r ∙ e) refl
    | inr e ↦ rw (stands_for-synced m.id r ∙ e) (is_known-synced m rs (rw e at h))
  ]

  synced_elsewhere : (r : XuiInboundRecord) → is_on i r ≡ false → synced i ms all r ≡ r
  unfolding synced
  synced_elsewhere r e = rw e refl

  elsewhere-synced :
      (rs : List XuiInboundRecord) → elsewhere i (map (synced i ms all) rs) ≡ elsewhere i rs
  elsewhere-synced [] = refl
  elsewhere-synced (r ∷ rs) = elim (Bool-cases (is_on i r)) [
    | inl e ↦ rw ((synced_keeps r).0, e) (elsewhere-synced rs)
    | inr e ↦ rw (synced_elsewhere r e, e) (ap (◌∷◌ r) (elsewhere-synced rs))
  ]

  -- The row that is kept for its remote id is written.
  synced_kept :
      (r : XuiInboundRecord)
      → is_on i r ≡ true
      → find (stands_for i r.xui_inbound_remote_id) all ≡ some r
      → synced i ms all r ≡ updated_by (remote_by_id ms r.xui_inbound_remote_id) r
  unfolding synced
  synced_kept r on kept = rw (on, kept, (==_iff r.id r.id).1 refl) refl

updated-Shows : (m : Option RemoteInbound) (r : XuiInboundRecord) → Shows m (updated_by m r)
updated-Shows none r = refl
updated-Shows (some m) r = (refl, refl, refl, refl)

map-synced-IsMirrored :
    (i : Uuid) (ms : List RemoteInbound) (rs : List XuiInboundRecord)
    → IsMirrored i ms (map (synced i ms rs) rs)
map-synced-IsMirrored i ms rs n r' found =
    let (r, there, same) =
      find-map (stands_for i n) (synced i ms rs) (stands_for-synced i ms rs n) rs {a = r'} found in
    let passes = find-passes (stands_for i n) rs there in
    let own : (is_on i r ≡ true) × (r.xui_inbound_remote_id ≡ n) = ground (arith, passes) in
    let kept : find (stands_for i r.xui_inbound_remote_id) rs ≡ some r =
      ap (λ k. find (stands_for i k) rs) own.1 ∙ there in
    let written : updated_by (remote_by_id ms n) r ≡ r' =
      ap (λ k. updated_by (remote_by_id ms k) r) (sym own.1)
      ∙ (sym (synced_kept i ms rs r own.0 kept) ∙ same) in
    subst (Shows (remote_by_id ms n)) written (updated-Shows (remote_by_id ms n) r)

-- Inbounds that the panel has and no row is for are known once they are added.
listed_after :
    (i : Uuid) (rs ts : List XuiInboundRecord)
    → ((m : RemoteInbound) → is_known i rs m ≡ true → is_known i ts m ≡ true)
    → (ms : List RemoteInbound) → All (IsKnown i ts) (select (is_new i rs) ms)
    → All (IsKnown i ts) ms
listed_after i rs ts more [] all = tt
listed_after i rs ts more (m ∷ ms) all = elim (Bool-cases (is_known i rs m)) [
  | inl e ↦ (more m e, listed_after i rs ts more ms (rw e at all))
  | inr e ↦ ((rw e at all).0, listed_after i rs ts more ms (rw e at all).1)
]

cons-IsKnown :
    (i : Uuid) (r : XuiInboundRecord) (rs : List XuiInboundRecord) (m : RemoteInbound)
    → IsKnown i rs m
    → IsKnown i (r ∷ rs) m
cons-IsKnown i r rs m h = elim (Bool-cases (stands_for i m.id r)) [
  | inl e ↦ rw e refl
  | inr e ↦ rw e h
]

-- A row that is added for an inbound of the panel shows it.
cons-IsMirrored :
    (i : Uuid) (ms : List RemoteInbound) (rs : List XuiInboundRecord) (m : RemoteInbound)
    (id : Uuid)
    → remote_by_id ms m.id ≡ some m
    → IsMirrored i ms rs
    → IsMirrored i ms (new_inbound id i m ∷ rs)
unfolding new_inbound
cons-IsMirrored i ms rs m id distinct all n r found = elim (Bool-cases (m.id == n)) [
  | inl e ↦
      let same : m.id ≡ n = (==_iff m.id n).0 e in
      let here : some (new_inbound id i m) ≡ some r = rw ((==_iff i i).1 refl, e) at found in
      subst (λ k. Shows (remote_by_id ms k) r) same
        (rw distinct (subst (Shows (some m)) (some-injective _ _ here) (refl, refl, refl, refl)))
  | inr e ↦ all n r (rw ((==_iff i i).1 refl, e) at found)
]

module _ (o : Outside) (i : Uuid) (ms : List RemoteInbound) where
  -- The rows that are added show what the panel has, and are of the one server.
  add_inbounds-goes :
      (xs : List RemoteInbound) (s : Session)
      → All (λ m. remote_by_id ms m.id ≡ some m) xs
      → IsMirrored i ms s.inbounds
      → (t : Session) × (add_inbounds o i xs s ≡ ok tt t)
        × IsMirrored i ms t.inbounds
        × All (IsKnown i t.inbounds) xs
        × ((m : RemoteInbound) → IsKnown i s.inbounds m → IsKnown i t.inbounds m)
        × (elsewhere i t.inbounds ≡ elsewhere i s.inbounds)
  unfolding add_inbounds new_inbound
  add_inbounds-goes [] s distinct all = (s, refl, all, tt, (λ m h. h), refl)
  add_inbounds-goes (x ∷ xs) s distinct all =
      let fresh = new_inbound (o.uuid4 s.drawn) i x in
      let (t, went, shown, known, more, kept) =
        add_inbounds-goes xs (record s { inbounds = fresh ∷ s.inbounds; drawn = s.drawn + 1 })
          distinct.1 (cons-IsMirrored i ms s.inbounds x (o.uuid4 s.drawn) distinct.0 all) in
      (
        t,
        went,
        shown,
        (more x (rw ((==_iff i i).1 refl, (==_iff x.id x.id).1 refl) refl), known),
        (λ m h. more m (cons-IsKnown i fresh s.inbounds m h)),
        rw (kept, (==_iff i i).1 refl) refl,
      )

-- The synchronisation of the rows of a server with the inbounds `ms` of its panel.
sync_remote_inbounds-Mirrors :
    (o : Outside) (i : Uuid) (ms : List RemoteInbound) (s : Session)
    → IsDistinct ms
    → (t : Session) × (sync_remote_inbounds o i ms s ≡ ok tt t)
      × Mirrors i ms t.inbounds
      × (elsewhere i t.inbounds ≡ elsewhere i s.inbounds)
unfolding sync_remote_inbounds
sync_remote_inbounds-Mirrors o i ms s distinct =
    let fresh = select (is_new i s.inbounds) ms in
    let s' = record s { inbounds = map (synced i ms s.inbounds) s.inbounds } in
    let (t, went, shown, known, more, kept) =
      add_inbounds-goes o i ms fresh s'
        (All-select (λ m. remote_by_id ms m.id ≡ some m) (is_new i s.inbounds) ms distinct)
        (map-synced-IsMirrored i ms s.inbounds) in
    (
      t,
      went,
      (
        shown,
        listed_after i s.inbounds t.inbounds
            (λ m h. more m (is_known-synced i ms s.inbounds m s.inbounds h)) ms known,
      ),
      kept ∙ elsewhere-synced i ms s.inbounds s.inbounds,
    )

module _ (o : Outside) (admin : User) (v : XuiServerRecord) (ms : List RemoteInbound) (s : Session)
    (found : find (server_has_id v.id) s.servers ≡ some v) (usable : v.has_credentials ≡ true)
    (clicked : (t : Session) → o.telegram t Call.answer_callback ≡ answer tt)
    (panel : (t : Session) → o.remote_inbounds t (Call.get_inbounds v.base_url) ≡ answer ms) where
  reached : Session
  reached = log (Call.get_inbounds v.base_url) (log Call.answer_callback s)

  syncs : sync_server_inbounds o admin v.id s ≡ sync_from o admin v (some ms) reached
  unfolding sync_server_inbounds sync_found reached
  syncs = rw (clicked s) (
      ap (λ (w : Option XuiServerRecord). sync_found o admin w (log Call.answer_callback s)) found
      ∙ (rw usable (rw (panel (log Call.answer_callback s)) refl)))

  -- A synchronisation of a server whose panel answers, with ids that tell its inbounds apart, makes
  -- the rows of the server show what the panel has: the row for an inbound (of two rows with its id
  -- the latest) has its values and is active, every new one has a row, and the row for an inbound
  -- that the panel no longer has is inactive. Other servers' rows stay.
  pub sync_server_inbounds-Mirrors :
      IsDistinct ms
      → (t : Session) × (sync_server_inbounds o admin v.id s ≡ ok tt t)
        × Mirrors v.id ms t.inbounds
        × (elsewhere v.id t.inbounds ≡ elsewhere v.id s.inbounds)
  unfolding sync_from reached
  sync_server_inbounds-Mirrors distinct =
      let (t, went, mirrors, kept) = sync_remote_inbounds-Mirrors o v.id ms reached distinct in
      (
        final (log_action admin.id "sync_inbounds" "server" v.id t),
        syncs ∙ rw went refl,
        mirrors,
        kept,
      )
