-- ===== src/Discount/Limits.antt =====
-- The limit on the uses of a discount code.
use marzbot.Base.{◌≤◌, ◌<◌, ◌≡◌, true, Option, some, arith, All, sym, ◌∙◌}
use marzbot.Base.Table.{find, All-modify}
use marzbot.Models.{Uuid, Time, Str, DiscountCode}
use mathlib.Core.Option.{some-injective}
use marzbot.Session.{Session, final}
use marzbot.Discount.{has_id, is_valid, get_by_code, validate_code, used, use_code}

-- No code was used more often than it may be.
abbrev pub IsLimited : Session → Type 0
IsLimited s = All (λ d. d.used_count ≤ d.max_uses) s.discounts

-- A code that passes the check is the one found by its name, active, has a use left, has not
-- expired, and is not bound to another plan than the one asked.
pub validate_code_sound :
    (code : Str) (plan_id : Option Uuid) (now : Time) (s : Session) (d : DiscountCode)
    → validate_code code plan_id now s ≡ some d
    → (get_by_code code s ≡ some d)
      × (d.is_active ≡ true)
      × (d.used_count < d.max_uses)
      × ((t : Time) → d.expires_at ≡ some t → now ≤ t)
      × ((p p' : Uuid) → d.plan_id ≡ some p → plan_id ≡ some p' → p ≡ p')
unfolding validate_code is_valid
validate_code_sound code plan_id now s d passes = ground arith

-- The use of a code that has just passed the check, with ids that tell the rows apart, keeps every
-- code within its limit.
pub use_code-IsLimited :
    (code : Str) (plan_id : Option Uuid) (now : Time) (s : Session) (d : DiscountCode)
    → validate_code code plan_id now s ≡ some d
    → find (has_id d.id) s.discounts ≡ some d
    → IsLimited s
    → IsLimited (final (use_code d s))
unfolding use_code used
use_code-IsLimited code plan_id now s d passes by_id h =
    All-modify (λ d. d.used_count ≤ d.max_uses) (has_id d.id) used s.discounts
      (λ a e low.
        let same = some-injective _ _ (sym e ∙ by_id) in
        let left = (validate_code_sound code plan_id now s d passes).2 in
        rw same (omega (arith, left)))
      h
