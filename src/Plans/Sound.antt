-- ===== src/Plans/Sound.antt =====
-- The plans that the dialogue of apps/bot/handlers/admin/plans.py makes.
use marzbot.Base.{
  ℕ, ◌+◌, ◌≤◌, ◌≡◌, refl, ap, ◌∙◌, Bool, true, false, Option, none, some, arith, All, Bool-cases,
  inl, inr,
}
use marzbot.Base.Int.{ℤ, pos, leb_ℤ}
use marzbot.Base.Decimal.{Decimal}
use mathlib.Core.Path.{subst, sym}
use marzbot.Base.Text.{strip}
use marzbot.Models.{Uuid, Str, User}
use marzbot.Session.{
  Session, Run, ok, err, Action, Outside, Call, Exn, Form, FormState, final, managed, nested, undo,
  proceed, handle, call_telegram, blank, rolled_back, rethrow, pure, Text,
}
use marzbot.Plans.{Numbers, is_integrity_error}
use marzbot.Plans.Normal.{normalize_integer_input}
use marzbot.Plans.Dialogue.{
  PlanForm, Update, Reaches, above_zero, with_duration, with_volume, with_name, plan_form,
  insert_plan, store_plan, price_entered, price_unless, try_insert, answer_stored, set_number,
  start_if, create_plan_start, select_found, create_plan_inbound_selected, create_plan_name,
  create_plan_duration, create_plan_volume, create_plan_price, cancel_plan_creation, text_entered,
  inbound_clicked, cancelled, route, integer_above_zero, price_of,
}
use marzbot.Plans.Positive.{
  IsSound, IsAboveZero, IsSoundSession, proceed_sound, back_sound, settle_sound,
  above_zero-IsAboveZero, plan_form_lem, final-plan_form, new_plan-IsSound,
}

abbrev refused : Exn → Action (Option Uuid)
refused e = pure none

module _ (n : Numbers) (o : Outside) (admin : User) where
  insert_plan_sound :
      (f : PlanForm) (price : Decimal) (fresh : Uuid) (s : Session)
      → 1 ≤ f.duration_days
      → 1 ≤ f.volume_gb
      → leb_ℤ price.coefficient (pos 0) ≡ false
      → IsSoundSession s
      → IsSoundSession (final (insert_plan n o admin f price fresh s))
  unfolding insert_plan
  insert_plan_sound f price fresh s d v p h =
      ground (arith, new_plan-IsSound n o (o.uuid4 s.drawn) f price fresh d v p)

  call_sound :
      (c : Call) (s : Session) → IsSoundSession s → IsSoundSession (final (call_telegram o c s))
  call_sound c s h = ground arith

  try_insert_sound :
      (f : PlanForm) (price : Decimal) (fresh : Uuid) (s : Session)
      → 1 ≤ f.duration_days
      → 1 ≤ f.volume_gb
      → leb_ℤ price.coefficient (pos 0) ≡ false
      → IsSoundSession s
      → IsSoundSession (final (try_insert n o admin f price fresh s))
  unfolding try_insert nested
  try_insert_sound f price fresh s d v p h =
      kept (insert_plan n o admin f price fresh s) (insert_plan_sound f price fresh s d v p h)
    where
      kept :
          (run : Run Uuid)
          → IsSoundSession (final run)
          → IsSoundSession (
              final (
                handle
                  (proceed (undo s run) (λ id t. ok (some id) t))
                  (λ e. rethrow (is_integrity_error e) e refused)))
      kept (ok id t) k = k
      kept (err e t) k = caught (is_integrity_error e)
        where
          caught : (b : Bool) → IsSoundSession (final (rethrow b e refused (rolled_back s t)))
          caught true = back_sound s t h k
          caught false = back_sound s t h k

  store_plan_sound :
      (f : PlanForm) (price : Decimal) (s : Session)
      → 1 ≤ f.duration_days
      → 1 ≤ f.volume_gb
      → leb_ℤ price.coefficient (pos 0) ≡ false
      → IsSoundSession s
      → IsSoundSession (final (store_plan n o admin f price s))
  unfolding store_plan answer_stored
  store_plan_sound f price s d v p h =
      let s' : Session = record s { drawn = s.drawn + 1; form = blank } in
      let h' : IsSoundSession s' = record { plans = h.plans; duration_days = tt; volume_gb = tt } in
      proceed_sound (try_insert n o admin f price (o.uuid4 s.drawn) s') (answer_stored n o admin)
        (try_insert_sound f price (o.uuid4 s.drawn) s' d v p h')
        (λ stored t e k. answered stored t k)
    where
      answered :
          (stored : Option Uuid) (t : Session)
          → IsSoundSession t
          → IsSoundSession (final (answer_stored n o admin stored t))
      answered none t k = call_sound _ t k
      answered (some id) t k = ground arith

  price_entered_sound :
      (price : Option Decimal) (s : Session)
      → IsSoundSession s
      → IsSoundSession (final (price_entered n o admin price s))
  unfolding price_entered price_unless
  price_entered_sound none s h = call_sound _ s h
  price_entered_sound (some price) s h = elim (Bool-cases (leb_ℤ price.coefficient (pos 0))) [
    | inl e ↦ rw e (call_sound (Call.send_message admin.telegram_id Text.invalid_input) s h)
    | inr e ↦ rw e (filled e (plan_form s.form s) refl)
  ]
    where
      filled :
          leb_ℤ price.coefficient (pos 0) ≡ false
          → (run : Run PlanForm) → plan_form s.form s ≡ run
          → IsSoundSession (final (proceed run (λ f. store_plan n o admin f price)))
      filled positive (ok f t) e =
          let (v, d, same) = plan_form_lem s.form s t f e in
          store_plan_sound f price t (subst IsAboveZero d h.duration_days)
            (subst IsAboveZero v h.volume_gb) positive (subst IsSoundSession (sym same) h)
      filled positive (err x t) e =
          subst IsSoundSession
            (sym (final-plan_form s.form s) ∙ ap (λ (r : Run PlanForm). final r) e) h

  set_number_sound :
      (f : ℕ → Form → Form) (d : Option ℕ) (s : Session)
      → ((m : ℕ) (g : Form)
          → IsAboveZero (some m)
          → IsAboveZero g.duration_days
          → IsAboveZero g.volume_gb
          → IsAboveZero (f m g).duration_days × IsAboveZero (f m g).volume_gb)
      → IsAboveZero d
      → IsSoundSession s
      → IsSoundSession (final (set_number n o admin f d s))
  unfolding set_number
  set_number_sound f none s k z h = call_sound _ s h
  set_number_sound f (some m) s k z h =
      let (a, b) = k m s.form z h.duration_days h.volume_gb in
      call_sound _ (record s { form = f m s.form })
        (record { plans = h.plans; duration_days = a; volume_gb = b })

  integer-IsAboveZero : (t : Str) → IsAboveZero (integer_above_zero n o admin t)
  integer-IsAboveZero t = by_value (n.read_int (normalize_integer_input n.decimal t))
    where
      by_value :
          (z : Option ℤ)
          → IsAboveZero (elim z as (λ x. Option ℕ) [ none ↦ none | some m ↦ above_zero m ])
      by_value none = tt
      by_value (some m) = above_zero-IsAboveZero m

  text_entered_sound :
      (st : FormState) (text : Option Str) (s : Session)
      → IsSoundSession s
      → IsSoundSession (final (text_entered n o admin st text s))
  unfolding text_entered create_plan_name create_plan_duration create_plan_volume create_plan_price
  text_entered_sound st none s h = h
  text_entered_sound FormState.waiting_for_plan_name (some t) s h =
      call_sound _ (record s { form = with_name (strip t) s.form })
        (record { plans = h.plans; duration_days = h.duration_days; volume_gb = h.volume_gb })
  text_entered_sound FormState.waiting_for_duration_days (some t) s h =
      set_number_sound with_duration (integer_above_zero n o admin t) s (λ m g z a b. (z, b))
        (integer-IsAboveZero t) h
  text_entered_sound FormState.waiting_for_volume_gb (some t) s h =
      set_number_sound with_volume (integer_above_zero n o admin t) s (λ m g z a b. (a, z))
        (integer-IsAboveZero t) h
  text_entered_sound FormState.waiting_for_price (some t) s h =
      price_entered_sound (price_of n o admin t) s h
  text_entered_sound _ (some t) s h = h

  inbound_clicked_sound :
      (st : FormState) (i : Uuid) (s : Session)
      → IsSoundSession s
      → IsSoundSession (final (inbound_clicked n o admin st i s))
  unfolding inbound_clicked create_plan_inbound_selected select_found
  inbound_clicked_sound FormState.waiting_for_inbound_selection i s h = ground arith
  inbound_clicked_sound _ i s h = h

  cancelled_sound :
      (st : FormState) (s : Session)
      → IsSoundSession s
      → IsSoundSession (final (cancelled n o admin st s))
  unfolding cancelled cancel_plan_creation
  cancelled_sound st s h = ground arith

  create_plan_start_sound :
      (s : Session) → IsSoundSession s → IsSoundSession (final (create_plan_start n o admin s))
  unfolding create_plan_start start_if
  create_plan_start_sound s h = ground arith

  route_sound :
      (u : Update) (s : Session) → IsSoundSession s → IsSoundSession (final (route n o admin u s))
  unfolding route
  route_sound Update.create s h = create_plan_start_sound s h
  route_sound (Update.select_inbound i) s h = inbound_clicked_sound s.form.state i s h
  route_sound (Update.write t) s h = text_entered_sound s.form.state t s h
  route_sound Update.cancel s h = cancelled_sound s.form.state s h

  managed_sound :
      (u : Update) (s : Session)
      → IsSoundSession s
      → IsSoundSession (final (managed (route n o admin u) s))
  unfolding managed
  managed_sound u s h = settle_sound s (route n o admin u s) h (route_sound u s h)

  -- From sound plans and a conversation that keeps no number but above zero, the dialogue leads to
  -- sound plans alone, whatever the administrator sends: a plan that it makes has at least a day
  -- and a byte, and a price that is not negative.
  pub Reaches-IsSoundSession :
      {s t : Session} → IsSoundSession s → Reaches n o admin s t → IsSoundSession t
  Reaches-IsSoundSession h Reaches.start = h
  Reaches-IsSoundSession h (Reaches.handled {t = t} r u) =
      managed_sound u t (Reaches-IsSoundSession h r)
  Reaches-IsSoundSession h (Reaches.meanwhile {t = t} r t' f p) =
      let k = Reaches-IsSoundSession h r in
      record {
        plans = subst (All IsSound) (sym p) k.plans;
        duration_days = subst (λ (g : Form). IsAboveZero g.duration_days) (sym f) k.duration_days;
        volume_gb = subst (λ (g : Form). IsAboveZero g.volume_gb) (sym f) k.volume_gb;
      }
