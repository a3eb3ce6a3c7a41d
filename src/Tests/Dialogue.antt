-- ===== src/Tests/Dialogue.antt =====
-- Dialogues of a purchase.
use marzbot.Base.{◌≡◌, refl, false, some, [], ◌∷◌}
use marzbot.Base.Int.{ltb_ℤ, ◌*ℤ◌}
use marzbot.Base.Text.{codes}
use marzbot.Models.{DiscountCode}
use marzbot.Session.{Session, ok, answer, Call, final, log, managed, cleared}
use marzbot.Pricing.{final_price}
use marzbot.Base.Decimal.{quantize, round_half_even, half_even}
use marzbot.Purchase.Gateway.{load_unfunded, pay_with_gateway}
use marzbot.Purchase.Gateway.Invoice.{Invoiced, pay_with_gateway-Invoiced}
use marzbot.Purchase.Dialogue.{Update, Reaches, route}
use marzbot.Purchase.Dialogue.Orderly.{IsOrderly, Reaches-IsOrderly}
use marzbot.Purchase.Dialogue.Carried.{selected}
use marzbot.Tests.World.{shop, user, wallet, plan, discount}
use marzbot.Tests.Purchase.{up}

-- The plan is chosen and named, by a user who has no conversation yet.
abbrev fresh : Session
fresh = record (shop []) { fsm = cleared }

abbrev asked : Session
asked = final (managed (route up 100 (Update.select_plan (some 3))) fresh)

abbrev named : Session
named = final (managed (route up 100 (Update.write (some (codes "phone")))) asked)

Reaches-IsOrderly_example : IsOrderly named.fsm
Reaches-IsOrderly_example =
    Reaches-IsOrderly up 100
      (Reaches.handled (Reaches.handled Reaches.start (Update.select_plan (some 3)))
        (Update.write (some (codes "phone"))))
      refl

-- The provider gives an invoice.
loaded : load_unfunded 100 3 (log Call.answer_callback (shop [])) ≡ some (user, plan)
unfolding load_unfunded
loaded = refl

pay_with_gateway-Invoiced_example :
    (t : Session) × (pay_with_gateway up 100 (shop []) ≡ ok tt t)
    × Invoiced up 100 3
        (shop [])
        (log Call.answer_callback (shop []))
        refl
        user
        plan
        refl
        loaded
        (answer "iid")
        t
pay_with_gateway-Invoiced_example =
    pay_with_gateway-Invoiced up 100 3 (shop []) (log Call.answer_callback (shop [])) refl user plan
      refl loaded (answer "iid") refl

-- A code for plan 9, entered before plan 3 was chosen.
abbrev foreign : DiscountCode
foreign = record discount { plan_id = some 9 }

abbrev carrying : Session
carrying = record (shop []) {
  fsm = record cleared { plan_id = some 9; discount_percent = some 20; discount_id = some 8 };
  discounts = foreign ∷ [];
}

covered : ltb_ℤ wallet.balance (final_price plan.price foreign.discount_percent) ≡ false
unfolding final_price quantize round_half_even half_even ◌*ℤ◌
covered = refl

abbrev there : Session
there = selected carrying 3
