-- ===== src/Wallet/Ledger.antt =====
-- The books of the wallets under `WalletManager.process_transaction`: the audit trail that the
-- transaction rows form, the reseller credit limit, and the wallets of other users.
use marzbot.Base.{
  ◌≡◌, refl, ◌≢◌, true, false, some, List, [], ◌∷◌, arith, ◌==◌, ==_iff, All, sym, ap, ◌∙◌,
}
use marzbot.Base.Int.{ℤ, pos, neg, ◌≤ℤ◌, int_laws}
use marzbot.Base.Decimal.{quantize}
use marzbot.Base.Table.{find-modify_self, find-modify_other, find-passes, All-modify}
use mathlib.Core.Path.{subst}
use mathlib.Core.Option.{some-injective}
use native.Mathlib.Decide.{ℕ_discrete}
use marzbot.Models.{Uuid, Wallet, WalletTransaction, Direction, credit, debit}
use marzbot.Session.{Session, final}
use marzbot.Wallet.{
  Request, is_debit, owned_by, get_by_user_id, set_balance, moved, entry, post, process_transaction,
}
use marzbot.Wallet.Branches.{process_transaction-keeps}

-- The user's rows, latest first, lead from the balance `b` back to the opening balance: each states
-- the balance that it left, which the next later one found, and their difference is its amount.
abbrev pub Trail : Uuid → ℤ → List WalletTransaction → ℤ → Type 0
Trail u b [] opening = b ≡ opening
Trail u b (t ∷ ts) opening = elim (t.user_id == u) [
  | true ↦
      (t.balance_after ≡ b)
      × (t.balance_after ≡ moved t.direction t.balance_before t.amount)
      × (pos 1 ≤ℤ t.amount)
      × Trail u t.balance_before ts opening
  | false ↦ Trail u b ts opening
]

-- The wallet of a user, if there is one, is explained by the user's rows.
abbrev pub IsAudited : Uuid → ℤ → Session → Type 0
IsAudited u opening s =
    (w : Wallet) → get_by_user_id u s ≡ some w → Trail u w.balance s.transactions opening

module _ (q : Request) (d : Direction) (w : Wallet) (amount : ℤ) (s : Session) where
  -- The wallet that was posted to is found with its new balance.
  pub get_by_user_id-post :
      get_by_user_id q.user_id s ≡ some w
      → get_by_user_id q.user_id (post q d w amount s)
        ≡ some (set_balance (moved d w.balance amount) w)
  unfolding post
  get_by_user_id-post found =
      find-modify_self (owned_by q.user_id) (set_balance (moved d w.balance amount)) s.wallets found
        (find-passes (owned_by q.user_id) s.wallets found)

  -- Every other user's wallet is as before.
  pub get_by_user_id-post_other :
      (u : Uuid) → u ≢ q.user_id → get_by_user_id u (post q d w amount s) ≡ get_by_user_id u s
  unfolding post
  get_by_user_id-post_other u ne =
      find-modify_other (owned_by q.user_id) (owned_by u) (set_balance (moved d w.balance amount))
        s.wallets λ a e. (ground arith, ground arith)

  post-IsAudited_self :
      (opening : ℤ)
      → get_by_user_id q.user_id s ≡ some w
      → pos 1 ≤ℤ amount
      → IsAudited q.user_id opening s
      → IsAudited q.user_id opening (post q d w amount s)
  unfolding post entry
  post-IsAudited_self opening found positive h w' found' =
      let same = some-injective _ _ (sym (get_by_user_id-post found) ∙ found') in
      rw ((==_iff q.user_id q.user_id).1 refl, Trail)
        (ap (λ (v : Wallet). v.balance) same, refl, positive, h w found)

  post-IsAudited_other :
      (u : Uuid) (opening : ℤ)
      → u ≢ q.user_id
      → IsAudited u opening s
      → IsAudited u opening (post q d w amount s)
  unfolding post entry
  post-IsAudited_other u opening ne h w' found' =
      let miss : (q.user_id == u) ≡ false = ground arith in
      rw (miss, Trail) (h w' (sym (get_by_user_id-post_other u ne) ∙ found'))

  post-IsAudited :
      (u : Uuid) (opening : ℤ)
      → get_by_user_id q.user_id s ≡ some w
      → pos 1 ≤ℤ amount
      → IsAudited u opening s
      → IsAudited u opening (post q d w amount s)
  post-IsAudited u opening found positive h = elim (ℕ_discrete q.user_id u) [
    | yes same ↦
        subst (λ v. IsAudited v opening (post q d w amount s)) same
          (post-IsAudited_self opening found positive
            (subst (λ v. IsAudited v opening s) (sym same) h))
    | no ne ↦ post-IsAudited_other u opening (λ e. ne (sym e)) h
  ]

-- A debit was tested, and a credit only raises the balance.
moved_within :
    (d : Direction) (a w : Wallet) (amount : ℤ)
    → a ≡ w
    → pos 1 ≤ℤ amount
    → (is_debit d ≡ true → neg w.credit_limit ≤ℤ moved d w.balance amount)
    → neg a.credit_limit ≤ℤ a.balance
    → neg a.credit_limit ≤ℤ moved d w.balance amount
moved_within debit a w amount e positive within low = rw e (within refl)
moved_within credit a w amount e positive within low =
    let low' : neg w.credit_limit ≤ℤ w.balance = rw e at low in rw e (omega int_laws)

-- If the rows of a user explain the wallet's balance from an opening balance, they explain it
-- after a call of `process_transaction` too, for whatever user and however it ends.
pub process_transaction-IsAudited :
    (q : Request) (s : Session) (u : Uuid) (opening : ℤ)
    → IsAudited u opening s
    → IsAudited u opening (final (process_transaction q s))
process_transaction-IsAudited q s u opening h =
    process_transaction-keeps (IsAudited u opening) q s h λ w d found positive within.
      post-IsAudited q d w (quantize 8 q.amount) s u opening found positive h

-- No balance lies below the negative of its credit limit.
abbrev pub IsWithinLimits : Session → Type 0
IsWithinLimits s = All (λ w. neg w.credit_limit ≤ℤ w.balance) s.wallets

-- If no wallet is below the negative of its credit limit, none is after a call of
-- `process_transaction`, however it ends.
pub process_transaction-IsWithinLimits :
    (q : Request) (s : Session)
    → IsWithinLimits s
    → IsWithinLimits (final (process_transaction q s))
unfolding post
process_transaction-IsWithinLimits q s h =
    process_transaction-keeps IsWithinLimits q s h λ w d found positive within.
      All-modify (λ w. neg w.credit_limit ≤ℤ w.balance) (owned_by q.user_id)
        (set_balance (moved d w.balance (quantize 8 q.amount))) s.wallets
        (λ a e.
          moved_within d a w (quantize 8 q.amount) (some-injective _ _ (sym e ∙ found)) positive
            within)
        h

-- A call of `process_transaction` leaves every other user's wallet as it was.
pub process_transaction-other_wallets :
    (q : Request) (s : Session) (u : Uuid)
    → u ≢ q.user_id
    → get_by_user_id u (final (process_transaction q s)) ≡ get_by_user_id u s
process_transaction-other_wallets q s u ne =
    process_transaction-keeps (λ s'. get_by_user_id u s' ≡ get_by_user_id u s) q s refl
      λ w d found positive within. get_by_user_id-post_other q d w (quantize 8 q.amount) s u ne
