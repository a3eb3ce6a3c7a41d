-- ===== src/Plans/Normal.antt =====
-- apps/bot/handlers/admin/plans.py: `_normalize_decimal_input` and `_normalize_integer_input`.
-- `unicodedata.decimal` is a parameter: the digit that a character stands for, if it is one.
use marzbot.Base.{
  ℕ, ◌+◌, Bool, true, false, ◌||◌, Option, none, some, [], ◌∷◌, ltb, ◌==◌, if◌then◌else◌,
}
use marzbot.Base.Table.{count}
use marzbot.Base.Text.{is_space, strip}
use marzbot.Models.{Str}

-- The marks of direction that are dropped.
unfoldable pub is_mark : ℕ → Bool
is_mark c =
    c == 0x200e
    || c == 0x200f
    || c == 0x202a
    || c == 0x202b
    || c == 0x202c
    || c == 0x2066
    || c == 0x2067
    || c == 0x2069

-- `DECIMAL_SEPARATORS`
unfoldable pub is_separator : ℕ → Bool
is_separator c = c == b'.' || c == b',' || c == 0x066b || c == 0x066c || c == 0x060c

unfoldable pub is_dropped : ℕ → Bool
unfolding is_mark is_space
is_dropped c = is_mark c || is_space c

abbrev pub is_point : ℕ → Bool
is_point c = c == b'.'

abbrev pub is_sign : ℕ → Bool
is_sign c = c == b'+' || c == b'-'

module _ (decimal : ℕ → Option ℕ) where
  -- `str(unicodedata.decimal(character))`, or the character itself
  abbrev pub digit_or : ℕ → ℕ
  digit_or c = elim (decimal c) [ some d ↦ b'0' + d | none ↦ c ]

  -- The loop, by whether a separator was seen.
  unfoldable pub decimal_chars : Bool → Str → Str
  unfolding is_dropped is_separator
  decimal_chars seen [] = []
  decimal_chars seen (c ∷ s) =
      let skipped = decimal_chars seen s in
      let kept = decimal_chars seen s in
      let after = decimal_chars true s in
      if is_dropped c
      then skipped
      else if is_sign c
      then c ∷ kept
      else if is_separator c
      then (if seen then skipped else b'.' ∷ after)
      else digit_or c ∷ kept

  -- `none` is `InvalidOperation`.
  unfoldable pub normalize_decimal_input : Str → Option Str
  unfolding decimal_chars strip
  normalize_decimal_input raw =
      let normalized = decimal_chars false (strip raw) in
      if ltb 1 (count is_point normalized) then none else some normalized

  unfoldable pub integer_chars : Str → Str
  unfolding is_dropped is_separator
  integer_chars [] = []
  integer_chars (c ∷ s) =
      let rest = integer_chars s in
      if is_dropped c || is_separator c then rest else digit_or c ∷ rest

  unfoldable pub normalize_integer_input : Str → Str
  unfolding integer_chars strip
  normalize_integer_input raw = integer_chars (strip raw)
