-- ===== src/Jobs/Tests.antt =====
-- A task that one worker claims, and the theorems at it.

use ota_api.Jobs.Recovery.{IsPoll, recoverable_tasks-IsPoll}
use ota_api.Jobs.Policy.{PublishTaskStatus, can_claim_publish_task, publish_task_failure_transition}
use ota_api.Jobs.Rows.{Database, Log, LogStatus, find_where, update_where, Task, holds_lease}
use ota_api.Jobs.Worker.{
  Claim, claim_read, claim_task, claim_with, effective_revision, lease, maximum_attempts, new_log,
  publish_emit_failed,
}
use ota_api.Jobs.Execution.{finish, recoverable_tasks}
use ota_api.Jobs.Leases.{
  IsIssued, claim_task-IsIssued, finish-stale, publish_task_failure_transition-bounds,
}
use ota_api.Jobs.Steps.{Reach, System, claims, here, next, pending_task, publishes}
use ota_api.Jobs.Steps.Exclusion.{Agrees}
use ota_api.Jobs.Steps.Reachable.{Reach-exclusive, initial}
use ota_api.Prelude.{
  [], any, err, false, inl, list_beq, nat_eq, none, ok, option_text_eq, refl, some, text, text_eq,
  ◌+◌, ◌<◌, ◌∷◌, ◌≡◌, ◌≤◌, ◌⊎◌,
}

abbrev queued : System
queued = record {
  db = record { catalog_revision = some 4; tasks = pending_task (text "t") 7 ∷ []; logs = [] };
  issued = [];
}

abbrev a_claim : Claim
a_claim = record {
  attempt_no = 1;
  lease_token = 1;
  log_id = text "l";
  started_at = 9;
  effective_revision = 4;
}

abbrev a_log : Log
a_log = record {
  log_id = text "l";
  task_id = text "t";
  attempt_no = 1;
  worker_id = text "w";
  lease_token = 1;
  status = LogStatus.running;
  effective_revision = 4;
  started_at = 9;
  finished_at = none;
  duration_ms = none;
  error_code = none;
  progress = none;
  last_checkpoint_at = none;
  metrics_complete = false;
  request_id = none;
}

abbrev leased : Database
leased = record {
  catalog_revision = some 4;
  tasks =
      record (pending_task (text "t") 7) {
        status = PublishTaskStatus.running;
        attempt_count = 1;
        lease_owner = some (text "w");
        lease_token = 1;
        lease_until = some 300009;
        updated_at = 9;
      }
      ∷ [];
  logs = a_log ∷ [];
}

claim_succeeds :
    claim_task (text "w") none 9 (text "l") (text "t") queued.db ≡ ok (leased, some a_claim)
unfolding claim_task claim_with claim_read effective_revision can_claim_publish_task
    maximum_attempts lease new_log update_where find_where list_beq
claim_succeeds = refl

claimed : Reach initial (record {
  db = leased;
  issued = record { worker = text "w"; task_id = text "t"; claim = a_claim } ∷ [];
})
claimed =
    next (next here (publishes (text "t") 7 4 tt tt))
      (claims (text "w") none 9 (text "l") (text "t") leased a_claim (tt, tt) claim_succeeds)

Reach-exclusive_example : (text "t" ≡ text "t" → a_log ≡ a_log) × Agrees leased.tasks a_log
Reach-exclusive_example = Reach-exclusive claimed a_log a_log (inl refl) (inl refl) refl refl

claim_task-IsIssued_example :
    (read : Task) × IsIssued (text "w") none 9 (text "l") (text "t") queued.db leased a_claim read
claim_task-IsIssued_example =
    claim_task-IsIssued (text "w") none 9 (text "l") (text "t") queued.db leased a_claim
      claim_succeeds

stale_claim : any (holds_lease (text "w") (text "t") 0) leased.tasks ≡ false
unfolding any holds_lease list_beq
stale_claim = refl

finish-stale_example :
    finish
      (text "w")
      (text "t")
      (record a_claim { lease_token = 0 })
      (err publish_emit_failed)
      10
      10
      10
      10
      leased
    ≡ (leased, false)
finish-stale_example =
    finish-stale (text "w") (text "t") (record a_claim { lease_token = 0 }) leased stale_claim
      (err publish_emit_failed) 10 10 10 10

recoverable_tasks-IsPoll_example : IsPoll 9 queued.db (recoverable_tasks 9 queued.db)
recoverable_tasks-IsPoll_example = recoverable_tasks-IsPoll 9 queued.db

publish_task_failure_transition-bounds_example :
    let f = publish_task_failure_transition 2 5 100 in
    (100 + 5000 ≤ f.next_run_at)
    × (f.next_run_at ≤ 100 + 300000)
    × (((5 ≤ 2) × (f.status ≡ PublishTaskStatus.failed) × (f.finished_at ≡ some 100))
        ⊎ ((2 < 5) × (f.status ≡ PublishTaskStatus.retry_wait) × (f.finished_at ≡ none)))
publish_task_failure_transition-bounds_example = publish_task_failure_transition-bounds 2 5 100
