-- ===== src/Broadcast.antt =====
-- apps/worker/jobs/broadcast.py: the queue of broadcasts. The pauses between two messages are left
-- out.
pub mod Progress
pub mod Drained
use marzbot.Base.{
  ℕ, ◌+◌, Bool, true, false, not, ◌&&◌, Option, none, some, List, [], ◌∷◌, ◌==◌, length, str_eq,
  if◌then◌else◌,
}
use marzbot.Base.Table.{modify, select}
use marzbot.Models.{Uuid, Time, User, BroadcastJob, BroadcastStatus, queued, processing, finished}
use marzbot.Session.{
  Session, Action, Exn, Outside, Reply, answer, failure, Call, Text, pure, gets, log,
  modify_session, ◌>>=◌, ◌>>◌,
}
use marzbot.Accounts.{set_user}
use marzbot.Support.{blocked}

abbrev pub job_has_id : Uuid → BroadcastJob → Bool
job_has_id i j = j.id == i

abbrev pub is_queued : BroadcastStatus → Bool
is_queued queued = true
is_queued _ = false

-- `User.status == "active", User.is_bot_blocked.is_(False)`
abbrev pub is_recipient : User → Bool
is_recipient u = str_eq u.status "active" && not u.is_bot_blocked

abbrev pub set_job : Uuid → (BroadcastJob → BroadcastJob) → Session → Session
set_job i f s = record s { broadcasts = modify (job_has_id i) f s.broadcasts }

abbrev pub started : BroadcastJob → BroadcastJob
started j = record j { status = processing }

abbrev pub addressed : ℕ → BroadcastJob → BroadcastJob
addressed n j = record j { total_recipients = n }

abbrev pub reached : BroadcastJob → BroadcastJob
reached j = record j { processed_recipients = j.processed_recipients + 1 }

abbrev pub missed : BroadcastJob → BroadcastJob
missed j = record j { failed_recipients = j.failed_recipients + 1 }

abbrev pub ended : Time → BroadcastJob → BroadcastJob
ended now j = record j { status = finished; finished_at = some now }

-- How a message to one recipient went: after `TelegramRetryAfter` it is not counted, nor sent again.
pub data Delivery : Type 0 where
  sent postponed refused broken : Delivery

abbrev pub delivery_of : Reply (Unit {0}) → Delivery
delivery_of (answer a) = sent
delivery_of (failure Exn.telegram_retry_after) = postponed
delivery_of (failure Exn.telegram_forbidden) = refused
delivery_of (failure _) = broken

module _ (o : Outside) where
  abbrev pub message_to : Bool → User → Call
  message_to is_photo u =
      if is_photo
      then Call.send_photo u.telegram_id
      else Call.send_message u.telegram_id Text.broadcast

  unfoldable pub attempt : Call → Action Delivery
  attempt c s = pure (delivery_of (o.telegram s c)) (log c s)

  unfoldable pub count_delivery : Uuid → User → Delivery → Action (Unit {0})
  count_delivery i u sent = modify_session (set_job i reached)
  count_delivery i u postponed = pure tt
  count_delivery i u refused = do
    modify_session (set_user u.id blocked)
    modify_session (set_job i missed)
  count_delivery i u broken = modify_session (set_job i missed)

  -- The loop over the recipients.
  unfoldable pub send_all : Uuid → Bool → List User → Action (Unit {0})
  unfolding attempt count_delivery
  send_all i is_photo [] = pure tt
  send_all i is_photo (u ∷ us) = do
    delivery ← attempt (message_to is_photo u)
    count_delivery i u delivery
    send_all i is_photo us

  unfoldable pub process_job : BroadcastJob → Action (Unit {0})
  unfolding send_all
  process_job job = do
    modify_session (set_job job.id started)
    users ← gets (λ s. select is_recipient s.users)
    modify_session (set_job job.id (addressed (length users)))
    send_all job.id job.is_photo users
    now ← gets o.utcnow
    modify_session (set_job job.id (ended now))

  -- The jobs stand latest first, and the oldest is processed first.
  unfoldable pub process_jobs : List BroadcastJob → Action (Unit {0})
  unfolding process_job
  process_jobs [] = pure tt
  process_jobs (j ∷ js) = do process_jobs js; process_job j

  unfoldable pub process_broadcast_queue : Action (Unit {0})
  unfolding process_jobs
  process_broadcast_queue = do
    jobs ← gets (λ s. select (λ j. is_queued j.status) s.broadcasts)
    process_jobs jobs
