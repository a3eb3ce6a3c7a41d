-- ===== src/Purchase/Gateway/Invoice.antt =====
-- What a purchase by invoice leaves (apps/bot/handlers/user/purchase.py).
use marzbot.Base.{
  ℕ, ◌+◌, ◌≡◌, refl, ap, ◌∙◌, inl, inr, Bool-cases, String, Option, none, some, ◌∷◌, get_or,
}
use marzbot.Base.Int.{ℤ}
use marzbot.Base.Text.{codes}
use marzbot.Models.{Uuid, Plan, User}
use marzbot.Session.{
  Session, Exn, Outside, Reply, answer, failure, Call, Run, ok, call_telegram, catch, cleared,
  handle, proceed, or_raise, gets, clear_state, ◌>>=◌,
}
use marzbot.Pricing.{final_price}
use marzbot.Purchase.Gateway.{
  is_nowpayments_request, load_unfunded, purchase_meta, new_payment, ask_invoice, record_invoice,
  record_if, buy_by_invoice, process_gateway_purchase, pay_with_gateway,
}

module _ (o : Outside) (telegram_id : ℕ) (plan_id : Uuid) (before s : Session)
    (clicked : call_telegram o Call.answer_callback before ≡ ok tt s) (u : User) (plan : Plan)
    (at_plan : s.fsm.plan_id ≡ some plan_id)
    (loaded : load_unfunded telegram_id plan_id s ≡ some (u, plan)) where
  abbrev pub price : ℤ
  price = final_price plan.price (get_or s.fsm.discount_percent 0)

  -- The session in which the invoice is asked for.
  abbrev pub asking : Session
  asking = record s { drawn = s.drawn + 1 }

  -- After the provider's reply, the rows are as before, but for one payment that waits for the price
  -- if there is an invoice.
  abbrev pub Invoiced : Reply String → Session → Type 0
  Invoiced (answer invoice_id) t = t ≡ record s {
    payments =
        record {
          id = o.uuid4 (s.drawn + 1);
          user_id = u.id;
          kind = "direct_purchase";
          provider_payment_id = none;
          provider_invoice_id = some (codes invoice_id);
          order_id = some (o.uuid_str (o.uuid4 s.drawn));
          payment_status = codes "waiting";
          price_currency = "USD";
          price_amount = price;
          actually_paid = none;
          callback_payload = some (record {
            plan_id = plan_id;
            config_name = get_or s.fsm.config_name (codes "VPN");
            discount_percent = get_or s.fsm.discount_percent 0;
            discount_id = s.fsm.discount_id;
          });
        }
        ∷ s.payments;
    fsm = cleared;
    drawn = s.drawn + 1 + 1;
    calls = Call.create_invoice price ∷ s.calls;
  }
  Invoiced (failure e) t =
      t
      ≡ record s { fsm = cleared; drawn = s.drawn + 1; calls = Call.create_invoice price ∷ s.calls }

  processes :
      process_gateway_purchase o telegram_id s ≡ buy_by_invoice o plan_id s.fsm (some (u, plan)) s
  unfolding process_gateway_purchase
  processes =
      ap
        (λ (p : Option Uuid).
          proceed (or_raise p Exn.key_error s)
            (λ i. gets (load_unfunded telegram_id i) >>= buy_by_invoice o i s.fsm))
        at_plan
      ∙ ap (λ (found : Option (User × Plan)). buy_by_invoice o plan_id s.fsm found s) loaded

  ends :
      (reply : Reply String)
      → o.invoice asking (Call.create_invoice price) ≡ reply
      → (t : Session) × (handle
            (buy_by_invoice o plan_id s.fsm (some (u, plan)) s)
            (λ e. clear_state)
          ≡ ok tt t)
        × Invoiced reply t
  unfolding buy_by_invoice ask_invoice record_if record_invoice new_payment purchase_meta
  ends (answer i) e = (_, rw e refl, refl)
  ends (failure x) e = elim (Bool-cases (is_nowpayments_request x)) [
    | inl y ↦ (_, rw (e, y) refl, refl)
    | inr n ↦ (_, rw (e, n) refl, refl)
  ]

  -- Of a user with an active plan whose click Telegram answers, which leaves `s`, the provider is asked once for an invoice of the discounted price.
  -- If it gives one, a payment of this price is recorded that waits with the plan, the name and the
  -- discount of the conversation, and if it fails none. No other row changes: no discount code is
  -- spent.
  pub pay_with_gateway-Invoiced :
      (reply : Reply String)
      → o.invoice asking (Call.create_invoice price) ≡ reply
      → (t : Session) × (pay_with_gateway o telegram_id before ≡ ok tt t) × Invoiced reply t
  unfolding pay_with_gateway
  pay_with_gateway-Invoiced reply e =
      let (t, went, left) = ends reply e in
      (
        t,
        ap
              (λ (run : Run (Unit {0})).
                proceed run
                  (λ x. catch (process_gateway_purchase o telegram_id) (λ e'. clear_state)))
              clicked
            ∙ rw processes went,
        left,
      )
