-- ===== src/Plans/Positive.antt =====
-- Sound plans and numbers above zero, in the dialogue of apps/bot/handlers/admin/plans.py.
use marzbot.Base.{
  ℕ, ◌^◌, ◌-◌, ◌==◌, leb, ◌≤◌, ◌≡◌, refl, Bool, true, false, Option, none, some, arith, All,
  Bool-cases, inl, inr,
}
use marzbot.Base.Int.{ℤ, pos, negsuc, ◌≤ℤ◌, leb_ℤ, ◌*ℤ◌}
use marzbot.Base.Decimal.{Decimal, quantize, round_half_even}
use marzbot.Models.{Uuid, Plan}
use marzbot.Session.{
  Session, Run, ok, err, Action, Outside, Form, final, undo, settle, commit, proceed, rolled_back,
}
use marzbot.Plans.{Numbers}
use marzbot.Plans.Dialogue.{PlanForm, above_zero, new_plan, plan_form}

-- A plan that gives something: days and bytes, at a price that is not negative.
abbrev pub IsSound : Plan → Type 0
IsSound p = (1 ≤ p.duration_days) × (1 ≤ p.volume_bytes) × (pos 0 ≤ℤ p.price)

abbrev pub IsAboveZero : Option ℕ → Type 0
IsAboveZero none = Unit
IsAboveZero (some n) = 1 ≤ n

-- Every plan is sound, and so are the numbers that the conversation keeps.
pub record IsSoundSession (s : Session) : Type 0 where
  pub plans : All IsSound s.plans
  pub duration_days : IsAboveZero s.form.duration_days
  pub volume_gb : IsAboveZero s.form.volume_gb

pub proceed_sound :
    {A B : Type 0} (run : Run A) (f : A → Action B)
    → IsSoundSession (final run)
    → ((a : A) (t : Session) → run ≡ ok a t → IsSoundSession t → IsSoundSession (final (f a t)))
    → IsSoundSession (final (proceed run f))
proceed_sound (ok a t) f h k = k a t refl h
proceed_sound (err e t) f h k = h

-- A rollback restores the plans and leaves the conversation.
pub back_sound :
    (s t : Session) → IsSoundSession s → IsSoundSession t → IsSoundSession (rolled_back s t)
back_sound s t h k = record {
  plans = h.plans;
  duration_days = k.duration_days;
  volume_gb = k.volume_gb;
}

pub commit_sound :
    {A : Type 0} (poisoned : Bool) (a : A) (s t : Session)
    → IsSoundSession s
    → IsSoundSession t
    → IsSoundSession (final (commit poisoned a s t))
commit_sound true a s t h k = back_sound s t h k
commit_sound false a s t h k = k

pub settle_sound :
    {A : Type 0} (s : Session) (run : Run A)
    → IsSoundSession s
    → IsSoundSession (final run)
    → IsSoundSession (final (settle s run))
settle_sound s (ok a t) h k = commit_sound t.poisoned a s t h k
settle_sound s (err e t) h k = back_sound s t h k

pub undo_sound :
    {A : Type 0} (s : Session) (run : Run A)
    → IsSoundSession s
    → IsSoundSession (final run)
    → IsSoundSession (final (undo s run))
undo_sound s (ok a t) h k = k
undo_sound s (err e t) h k = back_sound s t h k

pub scaled : (m k : ℕ) → pos 0 ≤ℤ pos m *ℤ pos k
unfolding ◌*ℤ◌
scaled m k = ground arith

pub quantize-pos : (d : Decimal) → leb_ℤ d.coefficient (pos 0) ≡ false → pos 0 ≤ℤ quantize 8 d
unfolding quantize round_half_even
quantize-pos d h = by_sign d.coefficient d.places h
  where
    by_sign :
        (c : ℤ) (p : ℕ)
        → leb_ℤ c (pos 0) ≡ false
        → pos 0 ≤ℤ quantize 8 (record { coefficient = c; places = p })
    by_sign (pos m) p e = elim (Bool-cases (leb p 8)) [
      | inl l ↦ rw l (scaled m (10 ^ (8 - p)))
      | inr l ↦ rw l (omega arith)
    ]
    by_sign (negsuc m) p e = absurd (ground arith)

pub above_zero-IsAboveZero : (z : ℤ) → IsAboveZero (above_zero z)
above_zero-IsAboveZero (pos m) = elim (Bool-cases (m == 0)) [
  | inl e ↦ rw e tt
  | inr e ↦ rw e (ground arith)
]
above_zero-IsAboveZero (negsuc m) = tt

-- What `plan_form` takes from a form.
pub plan_form_lem :
    (g : Form) (s t : Session) (f : PlanForm)
    → plan_form g s ≡ ok f t
    → (g.volume_gb ≡ some f.volume_gb) × (g.duration_days ≡ some f.duration_days) × (t ≡ s)
unfolding plan_form
plan_form_lem g s t f e = ground arith

pub final-plan_form : (g : Form) (s : Session) → final (plan_form g s) ≡ s
unfolding plan_form
final-plan_form g s = ground arith

module _ (n : Numbers) (o : Outside) where
  pub new_plan-IsSound :
      (id : Uuid) (f : PlanForm) (price : Decimal) (fresh : Uuid)
      → 1 ≤ f.duration_days
      → 1 ≤ f.volume_gb
      → leb_ℤ price.coefficient (pos 0) ≡ false
      → IsSound (new_plan n o id f price fresh)
  unfolding new_plan
  new_plan-IsSound id f price fresh d v p = (d, omega arith, quantize-pos price p)
