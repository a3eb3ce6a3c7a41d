-- ===== src/Wallet/Settled.antt =====
-- What `WalletManager.process_transaction` (services/wallet/manager.py) promises its callers.
use marzbot.Base.{◌≡◌, ◌≢◌, refl, true, some, ◌∷◌, ap, ◌∙◌}
use mathlib.Core.Path.{subst}
use marzbot.Base.Int.{ℤ, pos, neg, ◌≤ℤ◌, ◌+ℤ◌, ◌-ℤ◌}
use marzbot.Base.Decimal.{quantize}
use marzbot.Models.{Uuid, Wallet, WalletTransaction, Direction, credit, debit}
use marzbot.Session.{Session, Run, ok, err}
use marzbot.Wallet.{
  Request, WalletTransactionResult, normalized_direction, is_debit, get_by_user_id, moved, entry,
  post, process_transaction,
}
use marzbot.Wallet.Branches.{Outcome, process_transaction-Outcome}
use marzbot.Wallet.Ledger.{get_by_user_id-post, get_by_user_id-post_other}

-- The balance that a direction leads to.
abbrev pub balance_by : Direction → ℤ → ℤ → ℤ
balance_by debit b a = b -ℤ a
balance_by credit b a = b +ℤ a

-- The row that records it.
abbrev pub row_of : Request → Direction → Wallet → ℤ → WalletTransaction
row_of q d w amount = record {
  wallet_id = w.id;
  user_id = q.user_id;
  type = q.type;
  direction = d;
  amount = amount;
  currency = q.currency;
  balance_before = w.balance;
  balance_after = balance_by d w.balance amount;
  reference_type = q.reference_type;
  reference_id = q.reference_id;
}

-- A transaction of `amount` that went through, from `s` to `s'`.
abbrev pub Moves : Request → ℤ → Session → WalletTransactionResult → Session → Type 0
Moves q amount s r s' =
    (w : Wallet) × (d : Direction) × (get_by_user_id q.user_id s ≡ some w)
    × (normalized_direction q.direction ≡ some d)
    × (pos 1 ≤ℤ amount)
    × (d ≡ debit → neg w.credit_limit ≤ℤ w.balance -ℤ amount)
    × (get_by_user_id q.user_id s' ≡ some (record w { balance = balance_by d w.balance amount }))
    × ((u : Uuid) → u ≢ q.user_id → get_by_user_id u s' ≡ get_by_user_id u s)
    × (s'.transactions ≡ row_of q d w amount ∷ s.transactions)
    × (r.transaction ≡ row_of q d w amount)
    × (s' ≡ record s { wallets = s'.wallets; transactions = s'.transactions })

abbrev pub Settles : Request → Session → Run WalletTransactionResult → Type 0
Settles q s (ok r s') = Moves q (quantize 8 q.amount) s r s'
Settles q s (err e s') = s' ≡ s

balance_by-moved : (d : Direction) (b a : ℤ) → moved d b a ≡ balance_by d b a
balance_by-moved debit b a = refl
balance_by-moved credit b a = refl

row_of-entry :
    (q : Request) (d : Direction) (w : Wallet) (amount : ℤ)
    → entry q d w amount ≡ row_of q d w amount
unfolding entry
row_of-entry q debit w amount = refl
row_of-entry q credit w amount = refl

posted-Moves :
    (q : Request) (d : Direction) (w : Wallet) (amount : ℤ) (s : Session)
    (r : WalletTransactionResult)
    → get_by_user_id q.user_id s ≡ some w
    → normalized_direction q.direction ≡ some d
    → pos 1 ≤ℤ amount
    → (is_debit d ≡ true → neg w.credit_limit ≤ℤ moved d w.balance amount)
    → r.transaction ≡ entry q d w amount
    → Moves q amount s r (post q d w amount s)
unfolding post
posted-Moves q d w amount s r found word positive within row = (
  w,
  d,
  found,
  word,
  positive,
  λ debited.
      subst (λ (x : Direction). is_debit x ≡ true → neg w.credit_limit ≤ℤ moved x w.balance amount)
        debited within refl,
  get_by_user_id-post q d w amount s found
      ∙ ap (λ (b : ℤ). some (record w { balance = b })) (balance_by-moved d w.balance amount),
  λ u ne. get_by_user_id-post_other q d w amount s u ne,
  ap (λ (x : WalletTransaction). x ∷ s.transactions) (row_of-entry q d w amount),
  row ∙ row_of-entry q d w amount,
  refl,
)

settles :
    (q : Request) (s : Session) (run : Run WalletTransactionResult)
    → Outcome q s run
    → Settles q s run
settles q s (err e s') same = same
settles q s (ok r s') (w, d, found, word, positive, within, whole, row) =
    rw whole (posted-Moves q d w (quantize 8 q.amount) s r found word positive within row)

-- A transaction that is refused changes nothing. One that goes through has a positive amount, finds
-- the user's wallet, and keeps a debit within the credit limit. It moves that wallet's balance by
-- the amount, down for a debit and up for a credit, leaves the rest of the wallet and every other
-- user's wallet as they were, adds one row that states the amount and both balances, which is the
-- one it returns, and changes nothing else.
pub process_transaction-Settles :
    (q : Request) (s : Session) → Settles q s (process_transaction q s)
process_transaction-Settles q s =
    settles q s (process_transaction q s) (process_transaction-Outcome q s)
