-- ===== src/Tests/Plans.antt =====
-- The plans of the administration.
use marzbot.Base.{
  ℕ, ◌+◌, ◌*◌, ◌-◌, ◌≤◌, ◌≡◌, refl, true, Option, none, some, [], ◌∷◌, leb, ◌&&◌, arith,
  if◌then◌else◌,
}
use marzbot.Base.Int.{pos}
use marzbot.Base.Text.{codes}
use marzbot.Base.Table.{count}
use marzbot.Models.{Str}
use marzbot.Session.{Session, final, managed}
use marzbot.Plans.{Numbers}
use marzbot.Plans.Normal.{is_point, normalize_decimal_input, normalize_integer_input}
use marzbot.Plans.Input.{normalize_decimal_input-points}
use marzbot.Plans.Dialogue.{Update, Reaches, route}
use marzbot.Plans.Positive.{IsSoundSession}
use marzbot.Plans.Sound.{Reaches-IsSoundSession}
use marzbot.Plans.Deleted.{Deleted}
use marzbot.Tests.World.{shop, user, inbound}
use marzbot.Tests.Purchase.{up}

-- The digits of ASCII.
abbrev decimal : ℕ → Option ℕ
decimal c = if leb 48 c && leb c 57 then some (c - 48) else none

-- The number that a text of digits spells, its last digit first.
abbrev read : Str → ℕ
read [] = 0
read (c ∷ s) = (c - 48) + 10 * read s

abbrev numbers : Numbers
numbers = record {
  read_int = λ s. some (pos (read s));
  read_decimal = λ s. some (record { coefficient = pos (read s); places = 0 });
  decimal = decimal;
  show_decimal = λ d. codes "n";
}

normalize_decimal_input-points_example :
    (t : Str) × (normalize_decimal_input decimal (codes " 1.2,3") ≡ some t) × (count is_point t ≤ 1)
normalize_decimal_input-points_example = normalize_decimal_input-points decimal (codes " 1.2,3")

abbrev step : Update → Session → Session
step u s = final (managed (route numbers up user u) s)

abbrev dialogue : Session → Session
dialogue s = step (Update.write (some (codes "2"))) (
    step (Update.write (some (codes "5"))) (
      step (Update.write (some (codes "3"))) (
        step (Update.write (some (codes "Gold")))
          (step (Update.select_inbound 4) (step Update.create s)))))

shop-IsSoundSession : IsSoundSession (shop (inbound ∷ []))
shop-IsSoundSession = record { plans = ground arith; duration_days = tt; volume_gb = tt }

Reaches-IsSoundSession_example : IsSoundSession (dialogue (shop (inbound ∷ [])))
Reaches-IsSoundSession_example =
    Reaches-IsSoundSession numbers up user {s = shop (inbound ∷ [])}
      {t = dialogue (shop (inbound ∷ []))} shop-IsSoundSession
      (Reaches.handled
        (Reaches.handled
          (Reaches.handled
            (Reaches.handled
              (Reaches.handled (Reaches.handled Reaches.start Update.create)
                (Update.select_inbound 4))
              (Update.write (some (codes "Gold"))))
            (Update.write (some (codes "3"))))
          (Update.write (some (codes "5"))))
        (Update.write (some (codes "2"))))

-- The dialogue makes a plan.
dialogue_plans : count (λ p. true) (dialogue (shop (inbound ∷ []))).plans ≡ 2
unfolding managed route normalize_integer_input normalize_decimal_input marzbot.Session.nested
dialogue_plans = refl
