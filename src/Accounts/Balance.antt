-- ===== src/Accounts/Balance.antt =====
-- What the adjustment of a balance (apps/bot/handlers/admin/users.py) does to the books.
use marzbot.Base.{
  ℕ, zero, ◌≡◌, refl, ap, ◌∙◌, Bool, true, false, Option, none, some, arith, ◌∷◌, ◌==◌, is_some,
  Bool-cases, inl, inr, leb, if◌then◌else◌, ◌-◌, ◌^◌, suc,
}
use marzbot.Base.Int.{ℤ, pos, negsuc, neg, abs, ◌+ℤ◌, ◌*ℤ◌, ◌-ℤ◌, ltb_ℤ, leb_ℤ, int_laws}
use marzbot.Base.Decimal.{Decimal, quantize, round_half_even}
use marzbot.Models.{Uuid, User, Wallet, Direction, credit, debit}
use marzbot.Session.{Session, Outside, Call, Text, ok, answer, blank, log}
use marzbot.Wallet.{
  Request, normalized_direction, get_by_user_id, set_balance, moved, post,
  normalized_direction-credit, normalized_direction-debit,
}
use marzbot.Wallet.Branches.{exceeds}
use marzbot.Wallet.Amounts.{process_transaction-Posted}
use marzbot.Wallet.Ledger.{get_by_user_id-post}
use marzbot.Accounts.Manage.{
  user_at, with_wallet, adjustment, adjust_balance, submit_unless, submit_amount, submit_for,
  admin_edit_balance_submit,
}

-- The direction that the sign asks for.
abbrev pub direction_of : Decimal → Direction
direction_of amount = if ltb_ℤ (pos 0) amount.coefficient then credit else debit

-- The amount without its sign.
abbrev pub size : Decimal → Decimal
size amount = record { coefficient = pos (abs amount.coefficient); places = amount.places }

negated : (n k : ℕ) → negsuc n *ℤ pos k ≡ neg (pos (suc n) *ℤ pos k)
unfolding ◌*ℤ◌ neg
negated n k = ground arith

quantize-negsuc :
    (n p : ℕ)
    → quantize 8 (record { coefficient = negsuc n; places = p })
      ≡ neg (quantize 8 (record { coefficient = pos (suc n); places = p }))
unfolding quantize round_half_even
quantize-negsuc n p = elim (Bool-cases (leb p 8)) [
  | inl e ↦ rw e (negated n (10 ^ (8 - p)))
  | inr e ↦ rw e refl
]

abs-pos : (n : ℕ) → abs (pos n) ≡ n
unfolding abs
abs-pos n = omega arith

abs-negsuc : (n : ℕ) → abs (negsuc n) ≡ suc n
unfolding abs
abs-negsuc n = omega arith

minus_neg : (b x : ℤ) → b -ℤ x ≡ b +ℤ neg x
minus_neg b x = omega int_laws

direction-pos : (n p : ℕ) → direction_of (record { coefficient = pos (suc n); places = p }) ≡ credit
direction-pos n p = ground arith

direction-negsuc : (n p : ℕ) → direction_of (record { coefficient = negsuc n; places = p }) ≡ debit
direction-negsuc n p = ground arith

-- Rounding is the same for both signs, so the balance moves by the rounded amount.
moved-direction_of :
    (b : ℤ) (amount : Decimal)
    → abs amount.coefficient == 0 ≡ false
    → moved (direction_of amount) b (quantize 8 (size amount)) ≡ b +ℤ quantize 8 amount
moved-direction_of b amount h = by_sign amount.coefficient amount.places h
  where
    by_sign :
        (c : ℤ) (p : ℕ)
        → abs c == 0 ≡ false
        → moved
            (direction_of (record { coefficient = c; places = p }))
            b
            (quantize 8 (size (record { coefficient = c; places = p })))
          ≡ b +ℤ quantize 8 (record { coefficient = c; places = p })
    by_sign (pos zero) p h = absurd (ground (arith, abs-pos 0))
    by_sign (pos (suc n)) p h = rw (abs-pos (suc n)) (rw (direction-pos n p) refl)
    by_sign (negsuc n) p h =
        rw (quantize-negsuc n p, abs-negsuc n, direction-negsuc n p)
          (minus_neg b (quantize 8 (record { coefficient = pos (suc n); places = p })))

-- The books after the adjustment.
abbrev pub Adjusted : (admin u : User) → Wallet → Decimal → (s t : Session) → Type 0
Adjusted admin u w amount s t =
    (get_by_user_id u.id t ≡ some (set_balance (w.balance +ℤ quantize 8 amount) w))
    × (t.audit_logs
        ≡ record {
          actor_user_id = admin.id;
          action = "adjust_balance";
          entity_type = "user";
          entity_id = u.id;
        }
          ∷ s.audit_logs)
    × (t.form ≡ blank)

module _ (o : Outside) (admin u : User) (w : Wallet) (amount : Decimal) (s : Session)
    (target : s.form.target_user_id ≡ some u.id) (found : user_at u.id s ≡ some u)
    (has_wallet : get_by_user_id u.id s ≡ some w)
    (positive : leb_ℤ (quantize 8 (size amount)) (pos 0) ≡ false)
    (not_zero : abs amount.coefficient == 0 ≡ false) where
  abbrev pub request : Request
  request = adjustment u.id amount

  word : normalized_direction request.direction ≡ some (direction_of amount)
  unfolding adjustment
  word = elim (Bool-cases (ltb_ℤ (pos 0) amount.coefficient)) [
    | inl e ↦ rw e normalized_direction-credit
    | inr e ↦ rw e normalized_direction-debit
  ]

  submits :
      admin_edit_balance_submit o admin true (some amount) s
      ≡ adjust_balance o admin amount (some u) s
  unfolding admin_edit_balance_submit submit_for submit_amount submit_unless
  submits =
      ap (λ (i : Option Uuid). submit_for o admin i (some amount) s) target
      ∙ ap (λ (b : Bool). submit_unless o admin b u.id amount s) not_zero
      ∙ ap (λ (v : Option User). adjust_balance o admin amount (with_wallet v s) s) found
      ∙ ap
          (λ (v : Option Wallet).
            adjust_balance o admin amount (if is_some v then some u else none) s)
          has_wallet

  -- The session that is left: the posting, the row of the audit log, and the conversation cleared.
  left : Session
  left =
      log (Call.send_message admin.telegram_id Text.done)
        (record (post request (direction_of amount) w (quantize 8 (size amount)) s) {
          audit_logs =
              record {
                actor_user_id = admin.id;
                action = "adjust_balance";
                entity_type = "user";
                entity_id = u.id;
              }
              ∷ s.audit_logs;
          form = blank;
        })

  left-Adjusted : Adjusted admin u w amount s left
  unfolding left post adjustment abs
  left-Adjusted = (
    rw (← moved-direction_of w.balance amount not_zero) (
        get_by_user_id-post request (direction_of amount) w (quantize 8 (size amount)) s
          has_wallet),
    refl,
    refl,
  )

  goes :
      exceeds (direction_of amount) w (quantize 8 (size amount)) ≡ false
      → ((t : Session) → o.telegram t (Call.send_message admin.telegram_id Text.done) ≡ answer tt)
      → adjust_balance o admin amount (some u) s ≡ ok tt left
  unfolding adjust_balance adjustment abs post left
  goes within answers =
      rw
        (process_transaction-Posted request (direction_of amount) (quantize 8 (size amount)) refl
          word s w has_wallet positive within)
        (rw (answers _) refl)

  -- An amount that an administrator sends for a chosen user with a wallet, not zero when rounded to
  -- eight places, and covered if it is negative, moves the balance by just the rounded amount, up
  -- or down; the adjustment is in the audit log, and the conversation is over, if Telegram answers.
  pub admin_edit_balance_submit-Adjusted :
      exceeds (direction_of amount) w (quantize 8 (size amount)) ≡ false
      → ((t : Session) → o.telegram t (Call.send_message admin.telegram_id Text.done) ≡ answer tt)
      → (t : Session) × (admin_edit_balance_submit o admin true (some amount) s ≡ ok tt t)
        × Adjusted admin u w amount s t
  admin_edit_balance_submit-Adjusted within answers =
      (left, submits ∙ goes within answers, left-Adjusted)
