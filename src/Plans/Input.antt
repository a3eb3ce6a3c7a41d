-- ===== src/Plans/Input.antt =====
-- What `_normalize_decimal_input` and `_normalize_integer_input` (apps/bot/handlers/admin/plans.py)
-- make of a text.
use marzbot.Base.{
  ℕ, ◌-◌, ◌≤◌, ◌≡◌, refl, Bool, true, false, ◌||◌, Option, some, [], ◌∷◌, ◌++◌, arith, ◌==◌, All,
  if◌then◌else◌,
}
use marzbot.Base.Table.{count}
use marzbot.Base.Text.{is_space, strip, lstrip, rstrip}
use marzbot.Models.{Str}
use marzbot.Plans.Normal.{
  is_mark, is_separator, is_dropped, is_point, is_sign, digit_or, decimal_chars,
  normalize_decimal_input, integer_chars, normalize_integer_input,
}

-- How many points the loop may still write.
abbrev room : Bool → ℕ
room seen = if seen then 0 else 1

module _ (decimal : ℕ → Option ℕ) where
  -- What is appended for a character that is no separator is no point.
  digit_or-is_point : (c : ℕ) → is_separator c ≡ false → is_point (digit_or decimal c) ≡ false
  unfolding is_separator
  digit_or-is_point c h = ground arith

  decimal_chars-points :
      (seen : Bool) (s : Str) → count is_point (decimal_chars decimal seen s) ≤ room seen
  unfolding decimal_chars
  decimal_chars-points seen [] = ground arith
  decimal_chars-points seen (c ∷ s) =
      ground (arith, digit_or-is_point c, decimal_chars-points seen s, decimal_chars-points true s)

  -- The text is never refused, and what comes of it has one point at most.
  pub normalize_decimal_input-points :
      (raw : Str)
      → (t : Str) × (normalize_decimal_input decimal raw ≡ some t) × (count is_point t ≤ 1)
  unfolding normalize_decimal_input
  normalize_decimal_input-points raw =
      let normalized = decimal_chars decimal false (strip raw) in
      let few = decimal_chars-points false (strip raw) in (normalized, ground (arith, few), few)

-- A digit of ASCII.
abbrev pub IsDigit : ℕ → Type 0
IsDigit c = (48 ≤ c) × (c ≤ 57)

-- A comma or a point of ASCII.
abbrev pub is_comma_or_point : ℕ → Bool
is_comma_or_point c = c == b',' || c == b'.'

abbrev IsSolid : ℕ → Type 0
IsSolid c = is_space c ≡ false

lstrip-solid : (s : Str) → All IsSolid s → lstrip s ≡ s
unfolding lstrip
lstrip-solid [] h = refl
lstrip-solid (c ∷ s) h = rw (h.0)

rstrip-solid : (s : Str) → All IsSolid s → rstrip s ≡ s
unfolding rstrip
rstrip-solid [] h = refl
rstrip-solid (c ∷ []) h = rw (h.0)
rstrip-solid (c ∷ (d ∷ s)) h = rw (rstrip-solid (d ∷ s) (h.1)) refl

strip-solid : (s : Str) → All IsSolid s → strip s ≡ s
unfolding strip
strip-solid s h = rw (lstrip-solid s h) (rstrip-solid s h)

digit-IsSolid : (c : ℕ) → IsDigit c → IsSolid c
unfolding is_space
digit-IsSolid c h = ground arith

separator-IsSolid : (c : ℕ) → is_comma_or_point c ≡ true → IsSolid c
unfolding is_space
separator-IsSolid c h = ground arith

around-IsSolid :
    (a b : Str) (c : ℕ)
    → All IsDigit a
    → All IsDigit b
    → is_comma_or_point c ≡ true
    → All IsSolid (a ++ (c ∷ b))
around-IsSolid [] [] c ha hb h = (separator-IsSolid c h, tt)
around-IsSolid [] (d ∷ b) c ha hb h =
    let (x, xs) = around-IsSolid [] b c tt (hb.1) h in (x, (digit-IsSolid d (hb.0), xs))
around-IsSolid (d ∷ a) b c ha hb h = (digit-IsSolid d (ha.0), around-IsSolid a b c (ha.1) hb h)

module _ (decimal : ℕ → Option ℕ)
    (ascii : (c : ℕ) → 48 ≤ c → c ≤ 57 → decimal c ≡ some (c - 48)) where
  digit-plain :
      (c : ℕ)
      → IsDigit c
      → (is_dropped c ≡ false)
        × (is_sign c ≡ false)
        × (is_separator c ≡ false)
        × (digit_or decimal c ≡ c)
  unfolding is_dropped is_mark is_space is_separator
  digit-plain c h = ground (arith, ascii c (h.0) (h.1))

  separator-plain :
      (c : ℕ)
      → is_comma_or_point c ≡ true
      → (is_dropped c ≡ false) × (is_sign c ≡ false) × (is_separator c ≡ true)
  unfolding is_dropped is_mark is_space is_separator
  separator-plain c h = ground arith

  decimal_chars-digits : (seen : Bool) (b : Str) → All IsDigit b → decimal_chars decimal seen b ≡ b
  unfolding decimal_chars
  decimal_chars-digits seen [] h = refl
  decimal_chars-digits seen (c ∷ b) h =
      let (d, e, f, g) = digit-plain c (h.0) in
      rw (d, e, f, g, decimal_chars-digits seen b (h.1)) refl

  decimal_chars-around :
      (a b : Str) (c : ℕ)
      → All IsDigit a
      → All IsDigit b
      → is_comma_or_point c ≡ true
      → decimal_chars decimal false (a ++ (c ∷ b)) ≡ a ++ (b'.' ∷ b)
  unfolding decimal_chars
  decimal_chars-around [] b c ha hb h =
      let (d, e, f) = separator-plain c h in rw (d, e, f, decimal_chars-digits true b hb) refl
  decimal_chars-around (x ∷ a) b c ha hb h =
      let (d, e, f, g) = digit-plain x (ha.0) in
      rw (d, e, f, g, decimal_chars-around a b c (ha.1) hb h) refl

  integer_chars-digits : (b : Str) → All IsDigit b → integer_chars decimal b ≡ b
  unfolding integer_chars
  integer_chars-digits [] h = refl
  integer_chars-digits (c ∷ b) h =
      let (d, e, f, g) = digit-plain c (h.0) in rw (d, f, g, integer_chars-digits b (h.1)) refl

  integer_chars-around :
      (a b : Str) (c : ℕ)
      → All IsDigit a
      → All IsDigit b
      → is_comma_or_point c ≡ true
      → integer_chars decimal (a ++ (c ∷ b)) ≡ a ++ b
  unfolding integer_chars
  integer_chars-around [] b c ha hb h =
      let (d, e, f) = separator-plain c h in rw (d, f, integer_chars-digits b hb) refl
  integer_chars-around (x ∷ a) b c ha hb h =
      let (d, e, f, g) = digit-plain x (ha.0) in
      rw (d, f, g, integer_chars-around a b c (ha.1) hb h) refl

  -- Between digits, a comma and a point are the same: as a decimal, both are the decimal point, so
  -- that "1,000" is one; as an integer, both are dropped, so that "1.5" is fifteen.
  pub normalize_decimal_input-separator :
      (a b : Str) (c : ℕ)
      → All IsDigit a
      → All IsDigit b
      → is_comma_or_point c ≡ true
      → (normalize_decimal_input decimal (a ++ (c ∷ b)) ≡ some (a ++ (b'.' ∷ b)))
        × (normalize_integer_input decimal (a ++ (c ∷ b)) ≡ a ++ b)
  unfolding normalize_decimal_input normalize_integer_input
  normalize_decimal_input-separator a b c ha hb h =
      let solid = strip-solid (a ++ (c ∷ b)) (around-IsSolid a b c ha hb h) in
      let few = decimal_chars-points decimal false (a ++ (c ∷ b)) in
      let chars = decimal_chars-around a b c ha hb h in
      (
        rw (solid, chars) (let f = (rw chars at few) in ground (arith, f)),
        rw solid (integer_chars-around a b c ha hb h),
      )
