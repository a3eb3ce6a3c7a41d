-- ===== src/Discount.antt =====
-- repositories/discount.py: `DiscountRepository`.
pub mod Limits
use marzbot.Base.{
  ℕ, ◌+◌, Bool, true, false, not, ◌&&◌, Option, none, some, ◌∷◌, leb, ltb, ◌==◌, if◌then◌else◌,
}
use marzbot.Base.Text.{codes_eq, strip, upper}
use marzbot.Base.Table.{find, modify}
use marzbot.Models.{Uuid, Time, Str, DiscountCode}
use marzbot.Session.{Session, Action, Outside, draw, modify_session, pure, ◌>>=◌, ◌>>◌}

abbrev pub has_code : Str → DiscountCode → Bool
has_code code d = codes_eq d.code (upper (strip code))

unfoldable pub get_by_code : Str → Session → Option DiscountCode
get_by_code code s = find (has_code code) s.discounts

-- `discount.expires_at and discount.expires_at < now`
abbrev pub is_past : Option Time → Time → Bool
is_past none now = false
is_past (some t) now = ltb t now

-- `discount.plan_id and plan_id and discount.plan_id != plan_id`
abbrev pub is_other_plan : Option Uuid → Option Uuid → Bool
is_other_plan (some p) (some q) = not (p == q)
is_other_plan _ _ = false

unfoldable pub is_valid : DiscountCode → Option Uuid → Time → Bool
is_valid d plan_id now =
    d.is_active
    && not (leb d.max_uses d.used_count)
    && not (is_past d.expires_at now)
    && not (is_other_plan d.plan_id plan_id)

-- The four early returns, in order, all give `None`.
abbrev pub checked : Option Uuid → Time → Option DiscountCode → Option DiscountCode
checked plan_id now none = none
checked plan_id now (some d) = if is_valid d plan_id now then some d else none

unfoldable pub validate_code : Str → Option Uuid → Time → Session → Option DiscountCode
unfolding is_valid get_by_code
validate_code code plan_id now s = checked plan_id now (get_by_code code s)

-- What `use_code` does to the row.
unfoldable pub used : DiscountCode → DiscountCode
used d = record d {
  used_count = d.used_count + 1;
  is_active = d.is_active && not (leb d.max_uses (d.used_count + 1));
}

abbrev pub has_id : Uuid → DiscountCode → Bool
has_id i d = d.id == i

unfoldable pub use_code : DiscountCode → Action (Unit {0})
use_code d = modify_session λ s. record s { discounts = modify (has_id d.id) used s.discounts }

module _ (o : Outside) where
  unfoldable pub create_code : Str → ℕ → ℕ → Option Time → Option Uuid → Action DiscountCode
  create_code code percent max_uses expires_at plan_id = do
    id ← draw o
    let row : DiscountCode = record {
      id = id;
      code = upper (strip code);
      discount_percent = percent;
      max_uses = max_uses;
      used_count = 0;
      is_active = true;
      expires_at = expires_at;
      plan_id = plan_id;
    }
    modify_session (λ s. record s { discounts = row ∷ s.discounts })
    pure row

unfoldable pub deactivate : DiscountCode → Action (Unit {0})
deactivate d = modify_session λ s. record s {
  discounts = modify (has_id d.id) (λ r. record r { is_active = false }) s.discounts;
}
