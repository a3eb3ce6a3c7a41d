-- ===== src/Tests/Wallet.antt =====
-- Runs of `process_transaction`.
use marzbot.Base.{none, [], arith}
use marzbot.Base.Int.{ℤ, pos, neg}
use marzbot.Base.Decimal.{of_money}
use marzbot.Session.{final}
use marzbot.Wallet.{Request, process_transaction}
use marzbot.Wallet.Settled.{Settles, process_transaction-Settles}
use marzbot.Wallet.Ledger.{
  IsAudited, process_transaction-IsAudited, IsWithinLimits, process_transaction-IsWithinLimits,
}
use marzbot.Tests.World.{shop}

abbrev request : ℤ → Request
request amount = record {
  user_id = 1;
  amount = of_money amount;
  type = "purchase";
  direction = " Debit";
  currency = "USD";
  reference_type = none;
  reference_id = none;
}

process_transaction-Settles_example :
    Settles
      (request (pos 300_000_000))
      (shop [])
      (process_transaction (request (pos 300_000_000)) (shop []))
process_transaction-Settles_example =
    process_transaction-Settles (request (pos 300_000_000)) (shop [])

shop-IsAudited : IsAudited 1 (pos 500_000_000) (shop [])
shop-IsAudited = ground arith

process_transaction-IsAudited_example :
    IsAudited 1
      (pos 500_000_000)
      (final (process_transaction (request (pos 300_000_000)) (shop [])))
process_transaction-IsAudited_example =
    process_transaction-IsAudited (request (pos 300_000_000)) (shop []) 1 (pos 500_000_000)
      shop-IsAudited

shop-IsWithinLimits : IsWithinLimits (shop [])
unfolding neg
shop-IsWithinLimits = ground arith

process_transaction-IsWithinLimits_example :
    IsWithinLimits (final (process_transaction (request (pos 600_000_000)) (shop [])))
process_transaction-IsWithinLimits_example =
    process_transaction-IsWithinLimits (request (pos 600_000_000)) (shop []) shop-IsWithinLimits
