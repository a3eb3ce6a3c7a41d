-- ===== src/Accounts/Registry.antt =====
-- What `get_or_create_user` (repositories/user.py) leaves: a user with a wallet, once.
use marzbot.Base.{
  ℕ, ◌+◌, ◌≡◌, refl, Bool, true, false, not, ◌&&◌, none, some, List, [], ◌∷◌, arith, All, is_some,
  ==_iff, str_eq, Bool-cases, Option-cases, inl, inr,
}
use marzbot.Base.Table.{find, modify, find-passes, find-modify_same, All-modify}
use marzbot.Models.{User, Wallet}
use marzbot.Session.{Session, Outside, ok, nested}
use marzbot.Wallet.{owned_by}
use marzbot.Purchase.{has_telegram_id, get_by_telegram_id}
use marzbot.Accounts.{
  user_has_id, set_user, as_owner, is_owner_id, ensure_owner_role, add_user, new_user, new_wallet,
  get_or_create, get_or_create_user,
}

-- The user has a wallet.
abbrev pub HasWallet : List Wallet → User → Type 0
HasWallet wallets u = is_some (find (owned_by u.id) wallets) ≡ true

more_wallets :
    (w : Wallet) (wallets : List Wallet) (users : List User)
    → All (HasWallet wallets) users
    → All (HasWallet (w ∷ wallets)) users
more_wallets w wallets [] h = tt
more_wallets w wallets (u ∷ us) (h, hs) = (ground arith, more_wallets w wallets us hs)

owner_wallets :
    (q : User → Bool) (wallets : List Wallet) (users : List User)
    → All (HasWallet wallets) users
    → All (HasWallet wallets) (modify q as_owner users)
owner_wallets q wallets users h = All-modify (HasWallet wallets) q as_owner users (λ u e w. w) h

-- The run gave `u`, who is found by the Telegram id; every user has a wallet; and a second run
-- gives the same user, not a new one, and changes nothing.
abbrev pub Registers : Outside → ℕ → Session → User → Bool → Session → Type 0
Registers o telegram_id s u created t =
    (get_or_create_user o telegram_id s ≡ ok (u, created) t)
    × (get_by_telegram_id telegram_id t ≡ some u)
    × All (HasWallet t.wallets) t.users
    × (get_or_create_user o telegram_id t ≡ ok (u, false) t)

module _ (o : Outside) (telegram_id : ℕ) (s : Session)
    (wallets : All (HasWallet s.wallets) s.users) where
  newcomer : User
  newcomer = new_user o (o.uuid4 s.drawn) telegram_id (o.utcnow s)

  -- The session with the new user and its wallet.
  enlarged : Session
  enlarged = record s {
    users = newcomer ∷ s.users;
    wallets = new_wallet (o.uuid4 (s.drawn + 1)) (o.uuid4 s.drawn) ∷ s.wallets;
    drawn = s.drawn + 1 + 1;
  }

  itself : has_telegram_id telegram_id newcomer ≡ true
  unfolding newcomer new_user
  itself = (==_iff telegram_id telegram_id).1 refl

  newcomer_found : get_by_telegram_id telegram_id enlarged ≡ some newcomer
  unfolding enlarged
  newcomer_found = rw itself refl

  created :
      get_by_telegram_id telegram_id s ≡ none
      → get_or_create_user o telegram_id s ≡ ok (newcomer, true) enlarged
  unfolding get_or_create_user get_or_create add_user nested enlarged newcomer new_user
  created e = rw e (rw itself refl)

  enlarged_wallets : All (HasWallet enlarged.wallets) enlarged.users
  unfolding enlarged newcomer new_user new_wallet
  enlarged_wallets = (
    rw ((==_iff (o.uuid4 s.drawn) (o.uuid4 s.drawn)).1 refl) refl,
    more_wallets (new_wallet (o.uuid4 (s.drawn + 1)) (o.uuid4 s.drawn)) s.wallets s.users wallets,
  )

  settled :
      (u : User) (t : Session)
      → get_by_telegram_id telegram_id t ≡ some u
      → is_owner_id o telegram_id && not (str_eq u.role "owner") ≡ false
      → get_or_create_user o telegram_id t ≡ ok (u, false) t
  unfolding get_or_create_user get_or_create ensure_owner_role
  settled u t e r = rw e (rw r refl)

  newcomer_role : is_owner_id o telegram_id && not (str_eq newcomer.role "owner") ≡ false
  unfolding newcomer new_user
  newcomer_role = elim (Bool-cases (is_owner_id o telegram_id)) [
    | inl e ↦ rw e refl
    | inr e ↦ rw e refl
  ]

  promotes :
      (u : User)
      → get_by_telegram_id telegram_id s ≡ some u
      → is_owner_id o telegram_id && not (str_eq u.role "owner") ≡ true
      → get_or_create_user o telegram_id s ≡ ok (as_owner u, false) (set_user u.id as_owner s)
  unfolding get_or_create_user get_or_create ensure_owner_role
  promotes u e r = rw e (rw r refl)

  -- If every user has a wallet and the id of a known user is its own: a user who is found or created
  -- is found again by the Telegram id, every user has a wallet after it too, and a second call
  -- gives the same user and changes nothing.
  pub get_or_create_user-Registers :
      ((u : User)
        → get_by_telegram_id telegram_id s ≡ some u
        → find (user_has_id u.id) s.users ≡ some u)
      → (u : User) × (new : Bool) × (t : Session) × Registers o telegram_id s u new t
  get_or_create_user-Registers by_id = elim (Option-cases (get_by_telegram_id telegram_id s)) [
    | inl e ↦ (
      newcomer,
      true,
      enlarged,
      (
        created e,
        newcomer_found,
        enlarged_wallets,
        settled newcomer enlarged newcomer_found newcomer_role,
      ),
    )
    | inr (u, e) ↦ elim (Bool-cases (is_owner_id o telegram_id && not (str_eq u.role "owner"))) [
      | inl r ↦
          let again =
            find-modify_same (has_telegram_id telegram_id) (user_has_id u.id) as_owner s.users e
              (by_id u e) (find-passes (has_telegram_id telegram_id) s.users e) in
          (
            as_owner u,
            false,
            set_user u.id as_owner s,
            (
              promotes u e r,
              again,
              owner_wallets (user_has_id u.id) s.wallets s.users wallets,
              settled (as_owner u) (set_user u.id as_owner s) again (ground arith),
            ),
          )
      | inr r ↦ (u, false, s, (settled u s e r, e, wallets, settled u s e r))
    ]
  ]
