-- ===== src/Tests/Broadcast.antt =====
-- Broadcasts.
use marzbot.Base.{◌≡◌, refl, true, false, none, some, [], ◌∷◌, arith}
use marzbot.Base.Table.{find}
use marzbot.Models.{Uuid, BroadcastJob, queued}
use marzbot.Session.{Session, Outside, Exn, failure, answer, ok}
use marzbot.Broadcast.{job_has_id, is_queued, process_job, process_broadcast_queue}
use marzbot.Broadcast.Progress.{IsFinished, Elsewhere, process_job-IsFinished}
use marzbot.Broadcast.Drained.{HasFinished, process_broadcast_queue-finishes}
use marzbot.Tests.World.{shop, world}
use marzbot.Tests.Purchase.{up}

abbrev job : BroadcastJob
job = record {
  id = 30;
  status = queued;
  is_photo = false;
  total_recipients = 0;
  processed_recipients = 0;
  failed_recipients = 0;
  finished_at = none;
}

abbrev full : Session
full = record (shop []) { broadcasts = job ∷ [] }

-- Telegram asks to wait, each time.
abbrev busy : Outside
busy = record (world (answer tt)) { telegram = λ s c. failure Exn.telegram_retry_after }

process_job-IsFinished_example :
    (k : BroadcastJob) × (t : Session) × (process_job up job full ≡ ok tt t)
    × (find (job_has_id 30) t.broadcasts ≡ some k)
    × IsFinished 1 true job k
    × Elsewhere 30 full t
process_job-IsFinished_example =
    process_job-IsFinished up true job job full (λ a c v e. ground arith) refl

process_broadcast_queue-finishes_example :
    (t : Session) × (process_broadcast_queue busy full ≡ ok tt t)
    × ((i : Uuid) (j : BroadcastJob)
        → find (job_has_id i) full.broadcasts ≡ some j
        → is_queued j.status ≡ true
        → HasFinished t i)
process_broadcast_queue-finishes_example = process_broadcast_queue-finishes busy full
