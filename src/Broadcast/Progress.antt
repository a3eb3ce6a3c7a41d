-- ===== src/Broadcast/Progress.antt =====
-- How a broadcast (apps/worker/jobs/broadcast.py) ends.
use marzbot.Base.{ℕ, ◌+◌, ◌≤◌, ◌≡◌, ◌≢◌, refl, ◌∙◌, Bool, true, some, List, [], ◌∷◌, arith, length}
use marzbot.Base.Table.{find, select, find-passes, find-modify_self, find-modify_other}
use marzbot.Models.{Uuid, User, BroadcastJob, finished}
use marzbot.Session.{Session, Outside, Call, ok, log}
use marzbot.Broadcast.{
  job_has_id, is_recipient, set_job, started, addressed, reached, missed, ended, Delivery, sent,
  postponed, refused, broken, delivery_of, message_to, attempt, count_delivery, send_all,
  process_job,
}

-- The counters of a job after `n` messages: none counts twice, and each is counted if none is put off.
abbrev Counted : ℕ → BroadcastJob → BroadcastJob → Bool → Type 0
Counted n j k all =
    (k.processed_recipients + k.failed_recipients
      ≤ j.processed_recipients + j.failed_recipients + n)
    × (all ≡ true
        → k.processed_recipients + k.failed_recipients
          ≡ j.processed_recipients + j.failed_recipients + n)
    × (k.total_recipients ≡ j.total_recipients)

-- No other job is written.
abbrev pub Elsewhere : Uuid → Session → Session → Type 0
Elsewhere i s t =
    (m : Uuid) → m ≢ i → find (job_has_id m) t.broadcasts ≡ find (job_has_id m) s.broadcasts

set_job-Elsewhere :
    (i : Uuid) (f : BroadcastJob → BroadcastJob)
    → ((j : BroadcastJob) → (f j).id ≡ j.id)
    → (s : Session) → Elsewhere i s (set_job i f s)
set_job-Elsewhere i f same s m h =
    find-modify_other (job_has_id i) (job_has_id m) f s.broadcasts
      (λ j e. ((ground (arith, h)), (rw (same j) ground (arith, h))))

module _ (o : Outside) (i : Uuid) (is_photo all : Bool)
    (none_put_off : all ≡ true
      → (c : Call) (s : Session) → delivery_of (o.telegram s c) ≢ postponed) where
  -- One message adds one to the counters, or nothing if it is put off.
  count_one :
      (u : User) (d : Delivery) (j : BroadcastJob) (s : Session)
      → find (job_has_id i) s.broadcasts ≡ some j
      → (all ≡ true → d ≢ postponed)
      → (k : BroadcastJob) × (t : Session) × (count_delivery o i u d s ≡ ok tt t)
        × (find (job_has_id i) t.broadcasts ≡ some k)
        × Counted 1 j k all
        × Elsewhere i s t
  unfolding count_delivery
  count_one u sent j s e h = (
    reached j,
    _,
    refl,
    find-modify_self (job_has_id i) reached s.broadcasts e
        (find-passes (job_has_id i) s.broadcasts e),
    (omega arith, λ a. omega arith, refl),
    set_job-Elsewhere i reached (λ x. refl) s,
  )
  count_one u postponed j s e h =
      (j, s, refl, e, (omega arith, λ a. absurd (h a refl), refl), λ m d. refl)
  count_one u refused j s e h = (
    missed j,
    _,
    refl,
    find-modify_self (job_has_id i) missed s.broadcasts e
        (find-passes (job_has_id i) s.broadcasts e),
    (omega arith, λ a. omega arith, refl),
    set_job-Elsewhere i missed (λ x. refl) s,
  )
  count_one u broken j s e h = (
    missed j,
    _,
    refl,
    find-modify_self (job_has_id i) missed s.broadcasts e
        (find-passes (job_has_id i) s.broadcasts e),
    (omega arith, λ a. omega arith, refl),
    set_job-Elsewhere i missed (λ x. refl) s,
  )

  send_all-Counted :
      (us : List User) (j : BroadcastJob) (s : Session)
      → find (job_has_id i) s.broadcasts ≡ some j
      → (k : BroadcastJob) × (t : Session) × (send_all o i is_photo us s ≡ ok tt t)
        × (find (job_has_id i) t.broadcasts ≡ some k)
        × Counted (length us) j k all
        × Elsewhere i s t
  unfolding send_all attempt
  send_all-Counted [] j s e = (j, s, refl, e, (omega arith, λ a. omega arith, refl), λ m d. refl)
  send_all-Counted (u ∷ us) j s e =
      let c = message_to o is_photo u in
      let (k, t, went, there, one, kept) =
        count_one u (delivery_of (o.telegram s c)) j (log c s) e (λ a. none_put_off a c s) in
      let (m, v, rest, last, more, spared) = send_all-Counted us k t there in
      (
        m,
        v,
        rw went rest,
        last,
        (omega (arith, one.0, more.0), λ a. omega (arith, one.1 a, more.1 a), more.2 ∙ one.2),
        λ n d. spared n d ∙ kept n d,
      )

-- A job that is finished, with counters that go no further than the recipients, and as far if no
-- message is put off.
abbrev pub IsFinished : ℕ → Bool → BroadcastJob → BroadcastJob → Type 0
IsFinished n all j k =
    (k.status ≡ finished)
    × (k.total_recipients ≡ n)
    × (k.processed_recipients + k.failed_recipients
        ≤ j.processed_recipients + j.failed_recipients + n)
    × (all ≡ true
        → k.processed_recipients + k.failed_recipients
          ≡ j.processed_recipients + j.failed_recipients + n)

module _ (o : Outside) where
  -- A broadcast comes to its end, whatever Telegram answers: the job is finished, its total is the
  -- number of active users who have not blocked the bot, and its two counters grow by that number
  -- at most; by just that number, if Telegram never asks to wait. No other job is written.
  pub process_job-IsFinished :
      (all : Bool) (j r : BroadcastJob) (s : Session)
      → (all ≡ true → (c : Call) (v : Session) → delivery_of (o.telegram v c) ≢ postponed)
      → find (job_has_id j.id) s.broadcasts ≡ some r
      → (k : BroadcastJob) × (t : Session) × (process_job o j s ≡ ok tt t)
        × (find (job_has_id j.id) t.broadcasts ≡ some k)
        × IsFinished (length (select is_recipient s.users)) all r k
        × Elsewhere j.id s t
  unfolding process_job
  process_job-IsFinished all j r s none_put_off e =
      let itself = find-passes (job_has_id j.id) s.broadcasts e in
      let s₁ = set_job j.id started s in
      let e₁ = find-modify_self (job_has_id j.id) started s.broadcasts e itself in
      let us = select is_recipient s.users in
      let s₂ = set_job j.id (addressed (length us)) s₁ in
      let e₂ = find-modify_self (job_has_id j.id) (addressed (length us)) s₁.broadcasts e₁ itself in
      let (k, t, went, there, counted, kept) =
        send_all-Counted o j.id j.is_photo all none_put_off us (addressed (length us) (started r))
          s₂ e₂ in
      (
        ended (o.utcnow t) k,
        set_job j.id (ended (o.utcnow t)) t,
        rw went refl,
        find-modify_self (job_has_id j.id) (ended (o.utcnow t)) t.broadcasts there
            (find-passes (job_has_id j.id) t.broadcasts there),
        (refl, counted.2, counted.0, counted.1),
        λ m d.
            set_job-Elsewhere j.id (ended (o.utcnow t)) (λ x. refl) t m d
            ∙ kept m d
            ∙ set_job-Elsewhere j.id (addressed (length us)) (λ x. refl) s₁ m d
            ∙ set_job-Elsewhere j.id started (λ x. refl) s m d,
      )
