-- ===== src/Wallet.antt =====
-- services/wallet/manager.py with repositories/wallet.py: `WalletManager.process_transaction`.
pub mod Branches
pub mod Ledger
pub mod Amounts
pub mod Settled
use marzbot.Base.{
  ◌≡◌, refl, Bool, true, false, ◌&&◌, Option, none, some, ◌∷◌, String, ◌==◌, if◌then◌else◌,
}
use marzbot.Base.Int.{ℤ, pos, neg, ◌+ℤ◌, ◌-ℤ◌, ltb_ℤ, leb_ℤ}
use marzbot.Base.Decimal.{Decimal, quantize}
use marzbot.Base.Text.{codes, codes_eq, lower, strip}
use marzbot.Base.Table.{find, modify}
use marzbot.Models.{Uuid, Wallet, WalletTransaction, Direction, credit, debit}
use marzbot.Session.{
  Session, Action, Exn, raise_if, or_raise, gets, modify_session, nested, pure, ◌>>=◌, ◌>>◌,
}

-- The keyword arguments; the description and the metadata are stored and never read back.
pub record Request : Type 0 where
  pub user_id : Uuid
  pub amount : Decimal
  pub type : String
  pub direction : String
  pub currency : String
  pub reference_type : Option String
  pub reference_id : Option Uuid

pub record WalletTransactionResult : Type 0 where
  pub transaction : WalletTransaction
  pub balance_before : ℤ
  pub balance_after : ℤ

-- `direction.lower().strip()`, which must be one of the two. Beyond ASCII a letter stays as it is:
-- no other one lowers to a letter of the two words.
unfoldable pub normalized_direction : String → Option Direction
unfolding lower strip
normalized_direction d =
    let word = strip (lower (codes d)) in
    if codes_eq word (codes "credit")
    then some credit
    else if codes_eq word (codes "debit")
    then some debit
    else none

pub normalized_direction-credit : normalized_direction "credit" ≡ some credit
unfolding normalized_direction
normalized_direction-credit = refl

pub normalized_direction-debit : normalized_direction "debit" ≡ some debit
unfolding normalized_direction
normalized_direction-debit = refl

abbrev pub is_debit : Direction → Bool
is_debit debit = true
is_debit credit = false

abbrev pub owned_by : Uuid → Wallet → Bool
owned_by u w = w.user_id == u

-- `get_by_user_id` and `get_by_user_id_for_update`
abbrev pub get_by_user_id : Uuid → Session → Option Wallet
get_by_user_id u s = find (owned_by u) s.wallets

abbrev pub set_balance : ℤ → Wallet → Wallet
set_balance b w = record w { balance = b }

-- The balance that a transaction leaves.
abbrev pub moved : Direction → ℤ → ℤ → ℤ
moved d b a = if is_debit d then b -ℤ a else b +ℤ a

unfoldable pub entry : Request → Direction → Wallet → ℤ → WalletTransaction
entry q d w amount = record {
  wallet_id = w.id;
  user_id = q.user_id;
  type = q.type;
  direction = d;
  amount = amount;
  currency = q.currency;
  balance_before = w.balance;
  balance_after = moved d w.balance amount;
  reference_type = q.reference_type;
  reference_id = q.reference_id;
}

-- `wallet.balance = balance_after`, and the row that `create_transaction` adds.
unfoldable pub post : Request → Direction → Wallet → ℤ → Session → Session
post q d w amount s = record s {
  wallets = modify (owned_by q.user_id) (set_balance (moved d w.balance amount)) s.wallets;
  transactions = entry q d w amount ∷ s.transactions;
}

-- The body of the nested transaction, once the amount and the direction are accepted.
unfoldable pub transact : Request → Direction → ℤ → Action WalletTransactionResult
transact q d amount = do
  found ← gets (get_by_user_id q.user_id)
  wallet ← or_raise found Exn.wallet_not_found
  let balance_after = moved d wallet.balance amount
  raise_if (is_debit d && ltb_ℤ balance_after (neg wallet.credit_limit)) Exn.insufficient_balance
  modify_session (post q d wallet amount)
  pure (record {
    transaction = entry q d wallet amount;
    balance_before = wallet.balance;
    balance_after = balance_after;
  })

unfoldable pub process_transaction : Request → Action WalletTransactionResult
process_transaction q = do
  let normalized_amount = quantize 8 q.amount
  raise_if (leb_ℤ normalized_amount (pos 0)) Exn.value_error
  direction ← or_raise (normalized_direction q.direction) Exn.value_error
  nested (transact q direction normalized_amount)
