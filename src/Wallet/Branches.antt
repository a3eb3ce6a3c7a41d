-- ===== src/Wallet/Branches.antt =====
-- `WalletManager.process_transaction` (services/wallet/manager.py), branch by branch.
use marzbot.Base.{
  ◌≡◌, refl, sym, Bool, true, false, ◌&&◌, none, none, some, arith, Option-cases, Bool-cases, inl,
  inr,
}
use marzbot.Base.Int.{ℤ, pos, neg, ◌≤ℤ◌, ltb_ℤ, leb_ℤ}
use marzbot.Base.Decimal.{quantize}
use marzbot.Models.{Wallet, Direction}
use mathlib.Core.Path.{subst}
use marzbot.Session.{Session, Run, ok, err, final, Exn, nested}
use marzbot.Wallet.{
  Request, WalletTransactionResult, normalized_direction, is_debit, get_by_user_id, moved, entry,
  post, transact, process_transaction,
}

-- What a call that began at `s` has done, by how it ended.
abbrev pub Outcome : Request → Session → Run WalletTransactionResult → Type 0
Outcome q s (ok r s') =
    (w : Wallet) × (d : Direction) × (get_by_user_id q.user_id s ≡ some w)
    × (normalized_direction q.direction ≡ some d)
    × (pos 1 ≤ℤ quantize 8 q.amount)
    × (is_debit d ≡ true → neg w.credit_limit ≤ℤ moved d w.balance (quantize 8 q.amount))
    × (s' ≡ post q d w (quantize 8 q.amount) s)
    × (r.transaction ≡ entry q d w (quantize 8 q.amount))
Outcome q s (err e s') = s' ≡ s

-- `balance_after < -credit_limit`, tested for debits alone.
abbrev pub exceeds : Direction → Wallet → ℤ → Bool
exceeds d w amount = is_debit d && ltb_ℤ (moved d w.balance amount) (neg w.credit_limit)

-- The branches of a call, one equation for each.
module _ (q : Request) (s : Session) where
  pub process_transaction_amount :
      leb_ℤ (quantize 8 q.amount) (pos 0) ≡ true → process_transaction q s ≡ err Exn.value_error s
  unfolding process_transaction
  process_transaction_amount e = rw e

  module _ (positive : leb_ℤ (quantize 8 q.amount) (pos 0) ≡ false) where
    pub process_transaction_direction :
        normalized_direction q.direction ≡ none → process_transaction q s ≡ err Exn.value_error s
    unfolding process_transaction
    process_transaction_direction bad = rw (positive, bad)

    module _ (d : Direction) (word : normalized_direction q.direction ≡ some d) where
      pub process_transaction_missing :
          get_by_user_id q.user_id s ≡ none → process_transaction q s ≡ err Exn.wallet_not_found s
      unfolding process_transaction transact nested
      process_transaction_missing none_found = rw (positive, word, none_found)

      module _ (w : Wallet) (found : get_by_user_id q.user_id s ≡ some w) where
        pub process_transaction_over_limit :
            exceeds d w (quantize 8 q.amount) ≡ true
            → process_transaction q s ≡ err Exn.insufficient_balance s
        unfolding process_transaction transact nested
        process_transaction_over_limit e = rw (positive, word, found, e)

        pub process_transaction_posts :
            exceeds d w (quantize 8 q.amount) ≡ false
            → process_transaction q s
              ≡ ok
                  (record {
                    transaction = entry q d w (quantize 8 q.amount);
                    balance_before = w.balance;
                    balance_after = moved d w.balance (quantize 8 q.amount);
                  })
                  (post q d w (quantize 8 q.amount) s)
        unfolding process_transaction transact nested
        process_transaction_posts e = rw (positive, word, found, e)

-- A transaction that is refused changes nothing, and one that goes through posts.
pub process_transaction-Outcome :
    (q : Request) (s : Session) → Outcome q s (process_transaction q s)
process_transaction-Outcome q s = elim (Bool-cases (leb_ℤ (quantize 8 q.amount) (pos 0))) [
  | inl e ↦ rw (process_transaction_amount q s e) refl
  | inr p ↦ elim (Option-cases (normalized_direction q.direction)) [
    | inl bad ↦ rw (process_transaction_direction q s p bad) refl
    | inr (d, word) ↦ elim (Option-cases (get_by_user_id q.user_id s)) [
      | inl missing ↦ rw (process_transaction_missing q s p d word missing) refl
      | inr (w, found) ↦ elim (Bool-cases (exceeds d w (quantize 8 q.amount))) [
        | inl e ↦ rw (process_transaction_over_limit q s p d word w found e) refl
        | inr e ↦
            rw (process_transaction_posts q s p d word w found e)
              (w, d, found, word, ground arith, λ debited. ground arith, refl, refl)
      ]
    ]
  ]
]

follows :
    (P : Session → Type 0) (q : Request) (s : Session) (r : Run WalletTransactionResult)
    → Outcome q s r
    → P s
    → ((w : Wallet)
        → (d : Direction) → get_by_user_id q.user_id s ≡ some w
        → pos 1 ≤ℤ quantize 8 q.amount
        → (is_debit d ≡ true → neg w.credit_limit ≤ℤ moved d w.balance (quantize 8 q.amount))
        → P (post q d w (quantize 8 q.amount) s))
    → P (final r)
follows P q s (ok r s') (w, d, found, word, positive, within, e, row) h k =
    subst P (sym e) (k w d found positive within)
follows P q s (err x s') e h k = subst P (sym e) h

-- What holds of the session before, and after each posting, holds after the call.
pub process_transaction-keeps :
    (P : Session → Type 0) (q : Request) (s : Session)
    → P s
    → ((w : Wallet)
        → (d : Direction) → get_by_user_id q.user_id s ≡ some w
        → pos 1 ≤ℤ quantize 8 q.amount
        → (is_debit d ≡ true → neg w.credit_limit ≤ℤ moved d w.balance (quantize 8 q.amount))
        → P (post q d w (quantize 8 q.amount) s))
    → P (final (process_transaction q s))
process_transaction-keeps P q s =
    follows P q s (process_transaction q s) (process_transaction-Outcome q s)
