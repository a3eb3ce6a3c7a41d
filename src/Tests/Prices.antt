-- ===== src/Tests/Prices.antt =====
-- Prices and discount codes at concrete values.
use marzbot.Base.{ℕ, ◌≤◌, ◌*◌, ◌-◌, ◌+◌, ◌≡◌, refl, none, some, [], arith}
use marzbot.Base.Int.{pos}
use marzbot.Base.Text.{codes, upper, strip}
use marzbot.Session.{final}
use marzbot.Pricing.{final_price, final_price_nearest}
use marzbot.Discount.{validate_code, use_code}
use marzbot.Discount.Limits.{IsLimited, use_code-IsLimited}
use marzbot.Tests.World.{shop, discount}

final_price_nearest_example :
    (final : ℕ) × (final_price (pos 333_000_000) 15 ≡ pos final)
    × (100 * final ≤ 333_000_000 * (100 - 15) + 50_000_000)
    × (333_000_000 * (100 - 15) ≤ 100 * final + 50_000_000)
final_price_nearest_example = final_price_nearest 333_000_000 15 (omega arith) (omega arith)

valid : validate_code (codes " sale") none 0 (shop []) ≡ some discount
unfolding validate_code upper strip
valid = refl

use_code-IsLimited_example : IsLimited (final (use_code discount (shop [])))
use_code-IsLimited_example =
    use_code-IsLimited (codes " sale") none 0 (shop []) discount valid refl (ground arith)
