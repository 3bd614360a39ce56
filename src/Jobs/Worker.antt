-- ===== src/Jobs/Worker.antt =====
-- src/jobs/publish/publish-task-worker.service.ts: the worker's transactions. Each function is one
-- transaction, from the database before to the one after; a rollback returns the one before.
use ota_api.Jobs.Policy.{PublishTaskStatus, can_claim_publish_task, is_due}
use ota_api.Jobs.Rows.{
  Database, ErrorCode, Log, LogStatus, Task, catalog_revision_changed, dispatch_failed, emit_failed,
  find_where, has_id, holds_lease, is_after, is_log_running, is_running, lease_lost, update_where,
}
use ota_api.Prelude.{
  Bool, List, Option, Result, Text, [], err, false, if◌then◌else◌, leb, ltb, nat_eq, none, not, ok,
  option_text_eq, require, some, starts_with, text, text_eq, ℕ, ◌&&◌, ◌++◌, ◌+◌, ◌==◌, ◌>>=◌, ◌||◌,
  ◌∷◌,
}

-- The errors that the worker or the dispatch throws, and any other by its message.
pub data WorkerError : Type 0 where
  revision_unavailable revision_changed revision_changed_before_dispatch task_lease_lost :
      WorkerError
  publish_emit_failed : WorkerError
  other : Text → WorkerError

unfoldable pub message : WorkerError → Text
message revision_unavailable = text "Application catalog revision is unavailable"
message revision_changed = text "Publish catalog revision changed"
message revision_changed_before_dispatch = text "Publish catalog revision changed before dispatch"
message task_lease_lost = text "Publish task lease was lost"
message publish_emit_failed = text "Publish emit failed"
message (other m) = m

-- `t.includes(part)`
unfoldable pub includes_text : Text → Text → Bool
includes_text part [] = starts_with [] part
includes_text part (c ∷ t) = starts_with (c ∷ t) part || includes_text part t

unfoldable pub error_code : Text → ErrorCode
error_code m =
    if includes_text (text "catalog revision") m
    then catalog_revision_changed
    else if includes_text (text "lease") m
    then lease_lost
    else if m == text "Publish emit failed"
    then emit_failed
    else dispatch_failed

abbrev pub lease_ms : ℕ
lease_ms = 300000

abbrev pub max_safe_integer : ℕ
max_safe_integer = 9007199254740991

pub record Claim : Type 0 where
  pub attempt_no : ℕ
  pub lease_token : ℕ
  pub log_id : Text
  pub started_at : ℕ
  pub effective_revision : ℕ

-- `Number(task.max_attempts) || 5`
unfoldable pub maximum_attempts : Task → ℕ
maximum_attempts t = if t.max_attempts == 0 then 5 else t.max_attempts

unfoldable pub expire_log : ℕ → Log → Log
expire_log now l = record l {
  status = LogStatus.lease_expired;
  finished_at = some now;
  error_code = some ErrorCode.lease_expired;
  metrics_complete = false;
}

-- the running executions of a task whose lease has expired
abbrev pub expire_logs : Text → ℕ → List Log → List Log
expire_logs task_id now =
    update_where (λ (l : Log). l.task_id == task_id && is_log_running l.status) (expire_log now)

abbrev pub lease_is_expired : Task → ℕ → Bool
lease_is_expired t now = is_running t.status && is_due t.lease_until now

unfoldable pub exhaust : ℕ → Task → Task
exhaust now t = record t {
  status = PublishTaskStatus.failed;
  finished_at = some now;
  updated_at = now;
}

-- the columns come from the row that was read, as in the source
unfoldable pub lease : Text → Task → ℕ → Task → Task
lease worker read now t = record t {
  status = PublishTaskStatus.running;
  attempt_count = read.attempt_count + 1;
  lease_owner = some worker;
  lease_token = read.lease_token + 1;
  lease_until = some (now + lease_ms);
  updated_at = now;
  finished_at = none;
}

unfoldable pub new_log : Text → Option Text → ℕ → Text → ℕ → Text → Task → Log
new_log worker request_id now log_id revision task_id read = record {
  log_id = log_id;
  task_id = task_id;
  attempt_no = read.attempt_count + 1;
  worker_id = worker;
  lease_token = read.lease_token + 1;
  status = LogStatus.running;
  effective_revision = revision;
  started_at = now;
  finished_at = none;
  duration_ms = none;
  error_code = none;
  progress = none;
  last_checkpoint_at = none;
  metrics_complete = false;
  request_id = request_id;
}

unfoldable pub claim_read :
    Text → Option Text → ℕ → Text → ℕ → Text → Database → Task → Database × Option Claim
unfolding exhaust lease new_log expire_log
claim_read worker request_id now log_id revision task_id db read =
    let logs = if lease_is_expired read now then expire_logs task_id now db.logs else db.logs in
    if not (can_claim_publish_task read.status read.next_run_at read.lease_until now)
    then (db, none)
    else if ltb (maximum_attempts read) (read.attempt_count + 1)
    then (
      record db { tasks = update_where (has_id task_id) (exhaust now) db.tasks; logs = logs },
      none,
    )
    else (
      record db {
        tasks = update_where (has_id task_id) (lease worker read now) db.tasks;
        logs = logs ++ new_log worker request_id now log_id revision task_id read ∷ [];
      },
      some (record {
        attempt_no = read.attempt_count + 1;
        lease_token = read.lease_token + 1;
        log_id = log_id;
        started_at = now;
        effective_revision = revision;
      }),
    )

unfoldable pub claim_with :
    Text → Option Text → ℕ → Text → Text → Database → ℕ → Option Task → Database × Option Claim
unfolding claim_read
claim_with worker request_id now log_id task_id db revision none = (db, none)
claim_with worker request_id now log_id task_id db revision (some read) =
    claim_read worker request_id now log_id revision task_id db read

-- a missing or unsafe catalog revision throws
unfoldable pub effective_revision : Option ℕ → Result WorkerError ℕ
effective_revision none = err revision_unavailable
effective_revision (some n) = if leb n max_safe_integer then ok n else err revision_unavailable

-- `claimTask`, by a worker at a time, with the identifier drawn for the execution
unfoldable pub claim_task :
    Text → Option Text → ℕ → Text → Text → Database → Result WorkerError (Database × Option Claim)
unfolding claim_with effective_revision
claim_task worker request_id now log_id task_id db = do
  revision ← effective_revision db.catalog_revision
  ok (
      claim_with worker request_id now log_id task_id db revision
        (find_where (has_id task_id) db.tasks))

unfoldable pub has_revision : ℕ → Option ℕ → Bool
has_revision revision none = false
has_revision revision (some n) = n == revision

-- `requireCatalogRevision`
unfoldable pub require_catalog_revision : Database → ℕ → Result WorkerError (Unit {0})
unfolding has_revision
require_catalog_revision db revision =
    require (has_revision revision db.catalog_revision) revision_changed

-- `requireLiveLease`, whose clock is read behind the row lock
unfoldable pub lease_is_live : ℕ → Option Task → Bool
lease_is_live now none = false
lease_is_live now (some t) = is_after t.lease_until now

unfoldable pub require_live_lease : Text → Text → ℕ → ℕ → Database → Result WorkerError (Unit {0})
unfolding lease_is_live
require_live_lease worker task_id lease_token now db =
    require (lease_is_live now (find_where (holds_lease worker task_id lease_token) db.tasks))
      task_lease_lost
