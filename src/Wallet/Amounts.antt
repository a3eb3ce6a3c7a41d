-- ===== src/Wallet/Amounts.antt =====
-- `process_transaction` as the handlers call it: with a stored amount and a literal direction.
use marzbot.Base.{◌≡◌, true, false, some}
use marzbot.Base.Int.{ℤ, pos, leb_ℤ}
use marzbot.Base.Decimal.{quantize}
use marzbot.Models.{Direction, Wallet}
use marzbot.Session.{Session, Run, ok, err, Exn}
use marzbot.Wallet.{
  Request, WalletTransactionResult, get_by_user_id, normalized_direction, entry, post, moved,
  process_transaction,
}
use marzbot.Wallet.Branches.{exceeds, process_transaction_posts, process_transaction_over_limit}

-- The call went through, and left the posting.
abbrev pub Posted :
    Request → Direction → Wallet → ℤ → Session → Run WalletTransactionResult → Type 0
Posted q d w amount s r =
    r
    ≡ ok
        (record {
          transaction = entry q d w amount;
          balance_before = w.balance;
          balance_after = moved d w.balance amount;
        })
        (post q d w amount s)

module _ (q : Request) (d : Direction) (amount : ℤ) (stored : quantize 8 q.amount ≡ amount)
    (word : normalized_direction q.direction ≡ some d) (s : Session) where
  pub process_transaction-Posted :
      (w : Wallet)
      → get_by_user_id q.user_id s ≡ some w
      → leb_ℤ amount (pos 0) ≡ false
      → exceeds d w amount ≡ false
      → Posted q d w amount s (process_transaction q s)
  process_transaction-Posted w found positive within =
      rw (← stored)
        (process_transaction_posts q s (rw stored positive) d word w found (rw stored within))

  pub process_transaction-insufficient :
      (w : Wallet)
      → get_by_user_id q.user_id s ≡ some w
      → leb_ℤ amount (pos 0) ≡ false
      → exceeds d w amount ≡ true
      → process_transaction q s ≡ err Exn.insufficient_balance s
  process_transaction-insufficient w found positive over =
      process_transaction_over_limit q s (rw stored positive) d word w found (rw stored over)
