-- ===== src/Jobs/Execution.antt =====
-- src/jobs/publish/publish-task-worker.service.ts: the transactions of a claimed execution, and the
-- choice of the tasks to recover. `checked_at` is the clock behind a row lock, `now` that of the write.
use ota_api.Jobs.Policy.{
  FailureTransition, PublishTaskStatus, is_due, pending, publish_task_failure_transition,
  retry_wait,
}
use ota_api.Jobs.Rows.{
  Database, ErrorCode, Log, LogStatus, Task, find_where, has_id, holds_lease, is_after, is_own_log,
  is_running, update_where,
}
use ota_api.Jobs.Worker.{
  Claim, WorkerError, error_code, lease_ms, message, publish_emit_failed, require_catalog_revision,
  require_live_lease,
}
use ota_api.Realtime.Dispatch.{DispatchMetrics}
use ota_api.Prelude.{
  Bool, List, Option, Result, Text, [], any, err, false, filter, if◌then◌else◌, ltb, map, nat_eq,
  none, not, ok, option_text_eq, require, some, take, text_eq, true, ℕ, ◌&&◌, ◌+◌, ◌-◌, ◌==◌, ◌>>=◌,
  ◌>>◌, ◌||◌, ◌∷◌,
}

-- the condition on the task row that renewal, completion and failure share
abbrev pub holds_live_lease : Text → Text → ℕ → ℕ → Task → Bool
holds_live_lease worker task_id lease_token now t =
    holds_lease worker task_id lease_token t && is_after t.lease_until now

unfoldable pub extend_lease : ℕ → Task → Task
extend_lease now t = record t { lease_until = some (now + lease_ms); updated_at = now }

unfoldable pub checkpoint : DispatchMetrics → ℕ → Log → Log
checkpoint progress now l = record l {
  progress = some progress;
  last_checkpoint_at = some now;
  metrics_complete = false;
}

-- both rows are written, or neither
abbrev pub write_both :
    (Task → Bool) → (Task → Task) → (Log → Bool) → (Log → Log) → Database → Database × Bool
write_both task_test task_change log_test log_change db =
    if any task_test db.tasks && any log_test db.logs
    then (
      record db {
        tasks = update_where task_test task_change db.tasks;
        logs = update_where log_test log_change db.logs;
      },
      true,
    )
    else (db, false)

unfoldable pub renew_task_lease :
    Text
    → Text
    → ℕ
    → ℕ
    → Text
    → DispatchMetrics
    → (checked_at now : ℕ) → Database
    → Result WorkerError (Database × Bool)
unfolding extend_lease checkpoint
renew_task_lease worker task_id lease_token revision log_id progress checked_at now db = do
  require_catalog_revision db revision
  require_live_lease worker task_id lease_token checked_at db
  ok (
      write_both (holds_live_lease worker task_id lease_token now) (extend_lease now)
        (λ l. is_own_log worker log_id lease_token l && l.task_id == task_id)
        (checkpoint progress now) db)

unfoldable pub succeed_task : ℕ → Task → Task
succeed_task now t = record t {
  status = PublishTaskStatus.succeeded;
  lease_owner = none;
  lease_until = none;
  updated_at = now;
  finished_at = some now;
}

unfoldable pub succeed_log : ℕ → ℕ → DispatchMetrics → Log → Log
succeed_log started_at now result l = record l {
  status = LogStatus.succeeded;
  finished_at = some now;
  duration_ms = some (now - started_at);
  progress = some result;
  last_checkpoint_at = some now;
  metrics_complete = true;
}

-- the transaction that completes a dispatch without emit errors
unfoldable pub complete_task :
    Text
    → Text
    → Claim
    → DispatchMetrics
    → (checked_at now : ℕ) → Database
    → Result WorkerError (Database × Bool)
unfolding succeed_task succeed_log
complete_task worker task_id claim result checked_at now db = do
  require (result.counts.emit_errors == 0) publish_emit_failed
  require_catalog_revision db claim.effective_revision
  require_live_lease worker task_id claim.lease_token checked_at db
  ok (
      write_both (holds_live_lease worker task_id claim.lease_token now) (succeed_task now)
        (is_own_log worker claim.log_id claim.lease_token) (succeed_log claim.started_at now result)
        db)

unfoldable pub fail_task_row : FailureTransition → ErrorCode → ℕ → Task → Task
fail_task_row transition code now t = record t {
  status = transition.status;
  next_run_at = some transition.next_run_at;
  lease_owner = none;
  lease_until = none;
  last_error_code = some code;
  updated_at = now;
  finished_at = transition.finished_at;
}

unfoldable pub fail_log : ℕ → ErrorCode → ℕ → Log → Log
fail_log started_at code now l = record l {
  status = LogStatus.failed;
  finished_at = some now;
  duration_ms = some (now - started_at);
  error_code = some code;
  metrics_complete = false;
}

unfoldable pub fail_read :
    Text → Text → Claim → ErrorCode → ℕ → ℕ → Database → Option Task → Database
unfolding fail_task_row fail_log publish_task_failure_transition
fail_read worker task_id claim code now checked_at db none = db
fail_read worker task_id claim code now checked_at db (some t) =
    let transition = publish_task_failure_transition claim.attempt_no t.max_attempts now in
    if not (is_after t.lease_until checked_at)
    then db
    else if any (is_own_log worker claim.log_id claim.lease_token) db.logs
    then record db {
      tasks = update_where (has_id task_id) (fail_task_row transition code now) db.tasks;
      logs =
          update_where (is_own_log worker claim.log_id claim.lease_token)
            (fail_log claim.started_at code now) db.logs;
    }
    else db

-- the transaction of the handler: `failedAt`, then the clock behind the row lock
unfoldable pub fail_task :
    Text → Text → Claim → ErrorCode → (now checked_at : ℕ) → Database → Database
unfolding fail_read
fail_task worker task_id claim code now checked_at db =
    fail_read worker task_id claim code now checked_at db
      (find_where (holds_live_lease worker task_id claim.lease_token now) db.tasks)

abbrev pub handle :
    (WorkerError → Database) → Result WorkerError (Database × Bool) → Database × Bool
handle recover (ok r) = r
handle recover (err e) = (recover e, false)

-- `execute` behind the dispatch: its outcome, and the clocks of the two transactions
unfoldable pub finish :
    Text
    → Text
    → Claim
    → Result WorkerError DispatchMetrics
    → (checked_at now failed_at rechecked_at : ℕ) → Database
    → Database × Bool
finish worker task_id claim outcome checked_at now failed_at rechecked_at db =
    handle (λ e. fail_task worker task_id claim (error_code (message e)) failed_at rechecked_at db)
      (do result ← outcome; complete_task worker task_id claim result checked_at now db)

abbrev pub is_waiting : PublishTaskStatus → Bool
is_waiting pending = true
is_waiting retry_wait = true
is_waiting _ = false

-- the condition of the query in `recoverTasks`
unfoldable pub is_recoverable : ℕ → Task → Bool
is_recoverable now t =
    (is_waiting t.status && is_due t.next_run_at now)
    || (is_running t.status && is_due t.lease_until now)

unfoldable pub by_creation : Task → List Task → List Task
by_creation t [] = t ∷ []
by_creation t (u ∷ us) = if ltb u.created_at t.created_at then u ∷ by_creation t us else t ∷ u ∷ us

unfoldable pub order_by_creation : List Task → List Task
unfolding by_creation
order_by_creation [] = []
order_by_creation (t ∷ ts) = by_creation t (order_by_creation ts)

-- the tasks of one poll, oldest first, at most ten
unfoldable pub recoverable_tasks : ℕ → Database → List Text
unfolding order_by_creation is_recoverable
recoverable_tasks now db =
    map (λ (t : Task). t.task_id)
      (take 10 (order_by_creation (filter (is_recoverable now) db.tasks)))
