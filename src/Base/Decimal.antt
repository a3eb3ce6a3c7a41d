-- ===== src/Base/Decimal.antt =====
-- Python's `Decimal`, as a coefficient and a number of decimal places, and its `quantize` with
-- the default rounding, half to even. Amounts of money in the tables are `Numeric(18, 8)`: an
-- integer number of units of 10^-8. Infinities and NaN, and the limit of 28 significant digits,
-- are not modelled.
use marzbot.Base.{
  ℕ, suc, ◌+◌, ◌-◌, ◌*◌, ◌/◌, ◌%◌, ◌^◌, ◌≤◌, ◌≡◌, arith, ltb, leb, ◌==◌, if◌then◌else◌,
}
use marzbot.Base.Int.{ℤ, pos, negsuc, neg, ◌*ℤ◌}
use native.Mathlib.Nat.{div-add-mod, mod-lt, mul-le-mul, le_refl}
use native.Mathlib.Decide.{dec_lt}

-- The value is `coefficient / 10 ^ places`.
pub record Decimal : Type 0 where
  pub coefficient : ℤ
  pub places : ℕ

-- A stored amount, in units of 10^-8, read as a `Decimal`.
abbrev pub of_money : ℤ → Decimal
of_money m = record { coefficient = m; places = 8 }

-- n / d rounded to the nearest integer, a tie to the even one.
unfoldable pub half_even : ℕ → ℕ → ℕ
half_even n d =
    let q = n / d in
    let r = n % d in
    if ltb (2 * r) d then q else if ltb d (2 * r) then q + 1 else if q % 2 == 0 then q else q + 1

unfoldable pub round_half_even : ℤ → ℕ → ℤ
round_half_even (pos n) d = pos (half_even n d)
round_half_even (negsuc n) d = neg (pos (half_even (suc n) d))

-- `d.quantize(10 ^ -places)`, in units of `10 ^ -places`.
unfoldable pub quantize : ℕ → Decimal → ℤ
quantize p d =
    if leb d.places p
    then d.coefficient *ℤ pos (10 ^ (p - d.places))
    else round_half_even d.coefficient (10 ^ (d.places - p))

pub half_even_nearest :
    (n d : ℕ)
    → 1 ≤ d
    → (2 * (half_even n d * d) ≤ 2 * n + d) × (2 * n ≤ 2 * (half_even n d * d) + d)
unfolding half_even
half_even_nearest n d h = grind (arith, div-add-mod n d, mod-lt n h)

-- A quotient that reaches the bound leaves no remainder.
remainder_zero : (q r d k : ℕ) → k ≤ q → q * d + r ≤ k * d → r ≡ 0
remainder_zero q r d k h le = omega (arith, mul-le-mul h (le_refl d))

-- Rounding an amount that is at most a multiple of the divisor stays at most that multiple.
pub half_even-le : (n d k : ℕ) → 1 ≤ d → n ≤ k * d → half_even n d ≤ k
unfolding half_even
half_even-le n d k h le = elim (dec_lt (n / d) k) [
  | yes small ↦ ground arith
  | no large ↦ grind (arith, remainder_zero (n / d) (n % d) d k (omega arith), div-add-mod n d)
]

-- A stored amount is not changed by the rounding to its own places.
pub quantize-of_money : (m : ℤ) → quantize 8 (of_money m) ≡ m
unfolding quantize ◌*ℤ◌
quantize-of_money m = ground arith
