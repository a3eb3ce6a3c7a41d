-- ===== src/Pricing.antt =====
-- The price of a plan after a discount, as apps/bot/handlers/user/purchase.py and
-- services/payment.py compute it: `(price * (Decimal(100 - p) / Decimal(100))).quantize(0.01)`.
use marzbot.Base.{
  ℕ, zero, suc, ap, ◌∙◌, ◌+◌, ◌-◌, ◌*◌, ◌^◌, ◌≤◌, ◌≡◌, refl, true, arith, ltb, if◌then◌else◌,
}
use marzbot.Base.Int.{ℤ, pos, ◌*ℤ◌, sub_ℕ, ◌≤ℤ◌}
use marzbot.Base.Decimal.{
  Decimal, quantize, half_even, round_half_even, half_even_nearest, half_even-le,
}
use native.Mathlib.Nat.{mul-le-mul, le_refl}

-- Hundredths as units of 10^-8.
abbrev pub of_cents : ℤ → ℤ
of_cents c = c *ℤ pos 1_000_000

-- The exact product of a price with the part of it that is left to pay.
abbrev pub reduced : ℤ → ℕ → Decimal
reduced price percent = record { coefficient = price *ℤ sub_ℕ 100 percent; places = 10 }

unfoldable pub final_price : ℤ → ℕ → ℤ
final_price price percent =
    if ltb 0 percent then of_cents (quantize 2 (reduced price percent)) else price

pub final_price_none : (price : ℤ) → final_price price 0 ≡ price
unfolding final_price
final_price_none price = refl

pos_mul : (m n : ℕ) → pos m *ℤ pos n ≡ pos (m * n)
unfolding ◌*ℤ◌
pos_mul m n = ground arith

left_to_pay : (percent : ℕ) → percent ≤ 100 → sub_ℕ 100 percent ≡ pos (100 - percent)
left_to_pay percent h = ground arith

quantize_reduced :
    (n m : ℕ)
    → quantize 2 (record { coefficient = pos n *ℤ pos m; places = 10 })
      ≡ pos (half_even (n * m) (10 ^ 8))
unfolding quantize round_half_even
quantize_reduced n m = rw pos_mul refl

-- The price of a discounted plan, as the nearest number of cents, a tie going to the even one.
pub final_price-half_even :
    (n percent : ℕ)
    → 1 ≤ percent
    → percent ≤ 100
    → final_price (pos n) percent ≡ pos (half_even (n * (100 - percent)) (10 ^ 8) * 1_000_000)
unfolding final_price
final_price-half_even n percent h k =
    let discounted : ltb 0 percent ≡ true = ground arith in
    rw (discounted, left_to_pay percent k, quantize_reduced n (100 - percent)) (pos_mul _ _)

-- For a discount of 1 to 100 percent on a price that is not negative, the final price lies within
-- half a cent of the exact part of the price.
pub final_price_nearest :
    (n percent : ℕ)
    → 1 ≤ percent
    → percent ≤ 100
    → (final : ℕ) × (final_price (pos n) percent ≡ pos final)
      × (100 * final ≤ n * (100 - percent) + 50_000_000)
      × (n * (100 - percent) ≤ 100 * final + 50_000_000)
final_price_nearest n percent h k =
    let near = half_even_nearest (n * (100 - percent)) (10 ^ 8) (omega arith) in
    (
      half_even (n * (100 - percent)) (10 ^ 8) * 1_000_000,
      final_price-half_even n percent h k,
      omega (arith, near.0),
      omega (arith, near.1),
    )

-- A price in whole cents is never raised by a discount of at most 100 percent.
final_price-le :
    (cents percent : ℕ)
    → percent ≤ 100
    → final_price (pos (cents * 1_000_000)) percent ≤ℤ pos (cents * 1_000_000)
final_price-le cents zero k = rw final_price_none (omega arith)
final_price-le cents (suc p) k =
    let le =
      half_even-le (cents * 1_000_000 * (100 - suc p)) (10 ^ 8) cents (omega arith)
        (grind (arith, mul-le-mul (le_refl (cents * 1_000_000)) (less p))) in
    rw (final_price-half_even (cents * 1_000_000) (suc p) (omega arith) k) (omega (arith, le))
  where
    less : (p : ℕ) → 100 - suc p ≤ 100
    less p = omega arith

-- A full discount leaves nothing to pay.
pub final_price_full : (n : ℕ) → final_price (pos n) 100 ≡ pos 0
unfolding half_even
final_price_full n =
    let nothing : n * 0 ≡ 0 = omega arith in
    final_price-half_even n 100 (omega arith) (omega arith)
    ∙ ap (λ k. pos (half_even k (10 ^ 8) * 1_000_000)) nothing
