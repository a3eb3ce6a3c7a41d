-- ===== src/MyConfigs/Rows.antt =====
-- The rows that a handler of apps/bot/handlers/user/my_configs.py works on.
use marzbot.Base.{ℕ, ◌≡◌, refl, ap, sym, ◌∙◌, List, Option, some, none, arith}
use marzbot.Base.Table.{find, find-passes, find-modify_self}
use marzbot.Models.{Uuid, User, Subscription, XuiClientRecord, XuiInboundRecord, XuiServerRecord}
use marzbot.Session.{Session}
use marzbot.Runtime.{inbound_has_id, server_has_id}
use marzbot.Provisioning.Refund.{belongs_to, client_of_subscription}
use marzbot.Purchase.{has_telegram_id, get_by_telegram_id}
use marzbot.MyConfigs.{owned_of, owned, place_of, change_subscription}

-- A place is read from the rows of its parts.
pub place_of_rows :
    (i : Uuid) (s : Session) (c : XuiClientRecord) (n : XuiInboundRecord) (v : XuiServerRecord)
    → place_of i s ≡ some (c, n, v)
    → (find (client_of_subscription i) s.xui_clients ≡ some c)
      × (find (inbound_has_id c.inbound_id) s.inbounds ≡ some n)
      × (find (server_has_id n.server_id) s.servers ≡ some v)
unfolding place_of
place_of_rows i s c n v e = ground arith

-- What a query by id and owner finds has that id and owner.
pub belongs_own :
    (i j : Uuid) (l : List Subscription) (r : Subscription)
    → find (belongs_to i j) l ≡ some r
    → (r.id ≡ i) × (r.user_id ≡ j) × (find (belongs_to r.id r.user_id) l ≡ some r)
belongs_own i j l r found =
    let passes = find-passes (belongs_to i j) l found in
    let own : (r.id ≡ i) × (r.user_id ≡ j) = ground (arith, passes) in
    (own.0, own.1, simp (own.0, own.1) found)

-- The row that a handler found and changed is found with the change.
pub find-change_subscription :
    (r x : Subscription) (f : Subscription → Subscription) (s : Session)
    → find (belongs_to r.id r.user_id) s.subscriptions ≡ some x
    → belongs_to r.id r.user_id (f x) ≡ belongs_to r.id r.user_id x
    → find (belongs_to r.id r.user_id) (change_subscription r f s).subscriptions ≡ some (f x)
unfolding change_subscription
find-change_subscription r x f s found same =
    find-modify_self (belongs_to r.id r.user_id) f s.subscriptions found
      (same ∙ find-passes (belongs_to r.id r.user_id) s.subscriptions found)

-- The subscription is found by its own id and owner, which are those asked for.
pub owned_rows :
    (telegram_id : ℕ) (i : Uuid) (s : Session) (u : User) (r : Subscription)
    → owned telegram_id i s ≡ some (u, r)
    → (r.id ≡ i)
      × (r.user_id ≡ u.id)
      × (find (belongs_to r.id r.user_id) s.subscriptions ≡ some r)
      × (get_by_telegram_id telegram_id s ≡ some u)
unfolding owned
owned_rows telegram_id i s u r e =
    let found : (find (belongs_to i u.id) s.subscriptions ≡ some r)
        × (get_by_telegram_id telegram_id s ≡ some u) =
      ground arith in
    let (same_id, same_user, here) = belongs_own i u.id s.subscriptions r (found.0) in
    (same_id, same_user, here, found.1)

owned_of_same :
    (i : Uuid) (m : Option User) (s t : Session)
    → t.subscriptions ≡ s.subscriptions
    → owned_of i m t ≡ owned_of i m s
owned_of_same i none s t same = refl
owned_of_same i (some u) s t same = rw same refl

-- Only the users and the subscriptions decide what a user owns.
pub owned_same :
    (telegram_id : ℕ) (i : Uuid) (s t : Session)
    → t.users ≡ s.users
    → t.subscriptions ≡ s.subscriptions
    → owned telegram_id i t ≡ owned telegram_id i s
unfolding owned
owned_same telegram_id i s t users same =
    owned_of_same i (get_by_telegram_id telegram_id t) s t same
    ∙ ap (λ (l : List User). owned_of i (find (has_telegram_id telegram_id) l) s) users

owned_of_found :
    (i : Uuid) (u : User) (t : Session) (r : Subscription)
    → find (belongs_to i u.id) t.subscriptions ≡ some r
    → owned_of i (some u) t ≡ some (u, r)
owned_of_found i u t r there = rw (there, owned_of) refl

-- What the user owns in a later session, from the row that is there.
pub owned_again :
    (telegram_id : ℕ) (i : Uuid) (s t : Session) (u : User) (r r' : Subscription)
    → owned telegram_id i s ≡ some (u, r)
    → t.users ≡ s.users
    → find (belongs_to r.id r.user_id) t.subscriptions ≡ some r'
    → owned telegram_id i t ≡ some (u, r')
unfolding owned
owned_again telegram_id i s t u r r' mine users there =
    let (same_id, same_user, here, known) = owned_rows telegram_id i s u r mine in
    let known' : get_by_telegram_id telegram_id t ≡ some u =
      ap (find (has_telegram_id telegram_id)) users ∙ known in
    let there' : find (belongs_to i u.id) t.subscriptions ≡ some r' =
      ap (λ (j : Uuid). find (belongs_to j u.id) t.subscriptions) (sym same_id)
      ∙ (ap (λ (j : Uuid). find (belongs_to r.id j) t.subscriptions) (sym same_user) ∙ there) in
    ap (λ (m : Option User). owned_of i m t) known' ∙ owned_of_found i u t r' there'
