-- ===== src/Jobs/Steps/Transactions.antt =====
-- Each transaction of a worker keeps the invariant of executions.

use ota_api.Jobs.Rows.{
  Database, ErrorCode, Task, holds_lease, is_own_log, update_where, Log, has_id, is_after,
}
use ota_api.Jobs.Worker.{
  WorkerError, error_code, message, publish_emit_failed, require_catalog_revision,
  require_live_lease,
}
use ota_api.Jobs.Execution.{
  fail_log, holds_live_lease, renew_task_lease, succeed_log, succeed_task, checkpoint,
  complete_task, extend_lease, fail_read, fail_task, finish, handle, write_both,
}
use ota_api.Realtime.Dispatch.{DispatchMetrics}
use ota_api.Jobs.Steps.{Issued}
use ota_api.Jobs.Steps.Exclusion.{Calms, IsExclusive}
use ota_api.Jobs.Steps.Settling.{own_log-covers, settled-IsExclusive, renewed-IsExclusive}
use ota_api.Prelude.{
  >>=-eq-ok, Bool, Bool-cases, In, List, Option, Result, any, arith, err, inl, inr, list_beq_iff,
  nat_eq, none, ok, option_text_eq, refl, require, some, subst, text_eq, true, ℕ, ◌&&◌, ◌==◌, ◌≡◌,
}

abbrev pub Holds : Database → List Issued → Type 0
Holds db issued = IsExclusive db.tasks db.logs issued

write_both_cases :
    (P : Database → Type 0) (task_test : Task → Bool) (task_change : Task → Task)
    (log_test : Log → Bool) (log_change : Log → Log) (db : Database)
    → P db
    → (any task_test db.tasks ≡ true
        → any log_test db.logs ≡ true
        → P (record db {
          tasks = update_where task_test task_change db.tasks;
          logs = update_where log_test log_change db.logs;
        }))
    → P (write_both task_test task_change log_test log_change db).0
write_both_cases P task_test task_change log_test log_change db same written =
    elim (Bool-cases (any task_test db.tasks)) [
      | inl t ↦ elim (Bool-cases (any log_test db.logs)) [
        | inl l ↦ rw (t, l) (written t l)
        | inr l ↦ rw (t, l) same
      ]
      | inr t ↦ rw t same
    ]

pub renew-Holds :
    (i : Issued) (progress : DispatchMetrics) (checked_at now : ℕ) (db after : Database)
    (kept : Bool) (issued : List Issued)
    → renew_task_lease i.worker i.task_id i.claim.lease_token i.claim.effective_revision
        i.claim.log_id progress checked_at now db
      ≡ ok (after, kept)
    → Holds db issued
    → Holds after issued
unfolding renew_task_lease
renew-Holds i progress checked_at now db after kept issued e v =
    let (_, _, e') = >>=-eq-ok (require_catalog_revision db i.claim.effective_revision) _ e in
    let (_, _, e'') =
      >>=-eq-ok (require_live_lease i.worker i.task_id i.claim.lease_token checked_at db) _ e' in
    let task_test = holds_live_lease i.worker i.task_id i.claim.lease_token now in
    let log_test = λ (l : Log).
      is_own_log i.worker i.claim.log_id i.claim.lease_token l && l.task_id == i.task_id in
    let q : write_both task_test (extend_lease now) log_test (checkpoint progress now) db
        ≡ (after, kept) =
      cc in
    subst (λ (r : Database × Bool). Holds r.0 issued) q
      (write_both_cases (λ d. Holds d issued) task_test (extend_lease now) log_test
        (checkpoint progress now) db v
        (λ _ _. renewed-IsExclusive task_test log_test progress now db.tasks db.logs issued v))

live_lease_id :
    (i : Issued) (now : ℕ) (t : Task)
    → holds_live_lease i.worker i.task_id i.claim.lease_token now t ≡ true
    → t.task_id ≡ i.task_id
unfolding holds_lease
live_lease_id i now t h = ground (arith, list_beq_iff t.task_id i.task_id)

succeed_log-Calms :
    (started_at now : ℕ) (result : DispatchMetrics) → Calms (succeed_log started_at now result)
unfolding succeed_log
succeed_log-Calms started_at now result = record {
  same_log = λ l. refl;
  same_task = λ l. refl;
  not_started = λ l r. cc;
}

fail_log-Calms :
    (started_at : ℕ) (code : ErrorCode) (now : ℕ) → Calms (fail_log started_at code now)
unfolding fail_log
fail_log-Calms started_at code now = record {
  same_log = λ l. refl;
  same_task = λ l. refl;
  not_started = λ l r. cc;
}

succeeded-Holds :
    (i : Issued) (result : DispatchMetrics) (now : ℕ) (db : Database) (issued : List Issued)
    → In i issued
    → any (is_own_log i.worker i.claim.log_id i.claim.lease_token) db.logs ≡ true
    → Holds db issued
    → IsExclusive
        (update_where
          (holds_live_lease i.worker i.task_id i.claim.lease_token now)
          (succeed_task now)
          db.tasks)
        (update_where
          (is_own_log i.worker i.claim.log_id i.claim.lease_token)
          (succeed_log i.claim.started_at now result)
          db.logs)
        issued
unfolding succeed_task succeed_log
succeeded-Holds i result now db issued m own v =
    settled-IsExclusive i.task_id _ _ (λ t. refl) (live_lease_id i now) _ _
      (succeed_log-Calms i.claim.started_at now result) (λ l r. cc) db.tasks db.logs
      (own_log-covers i db.logs issued v.alone v.named m own) issued v

complete-Holds :
    (i : Issued) (result : DispatchMetrics) (checked_at now : ℕ) (db : Database)
    (r : Database × Bool) (issued : List Issued)
    → In i issued
    → complete_task i.worker i.task_id i.claim result checked_at now db ≡ ok r
    → Holds db issued
    → Holds r.0 issued
unfolding complete_task
complete-Holds i result checked_at now db r issued m e v =
    let (_, _, e1) = >>=-eq-ok (require (result.counts.emit_errors == 0) publish_emit_failed) _ e in
    let (_, _, e2) = >>=-eq-ok (require_catalog_revision db i.claim.effective_revision) _ e1 in
    let (_, _, e3) =
      >>=-eq-ok (require_live_lease i.worker i.task_id i.claim.lease_token checked_at db) _ e2 in
    let task_test = holds_live_lease i.worker i.task_id i.claim.lease_token now in
    let log_test = is_own_log i.worker i.claim.log_id i.claim.lease_token in
    let q : write_both task_test (succeed_task now) log_test
          (succeed_log i.claim.started_at now result) db
        ≡ r =
      cc in
    subst (λ (r : Database × Bool). Holds r.0 issued) q
      (write_both_cases (λ d. Holds d issued) task_test (succeed_task now) log_test _ db v
        (λ _ own. succeeded-Holds i result now db issued m own v))

fail_read-Holds :
    (i : Issued) (code : ErrorCode) (now checked_at : ℕ) (db : Database) (o : Option Task)
    (issued : List Issued)
    → In i issued
    → Holds db issued
    → Holds (fail_read i.worker i.task_id i.claim code now checked_at db o) issued
unfolding fail_read
fail_read-Holds i code now checked_at db none issued m v = v
fail_read-Holds i code now checked_at db (some t) issued m v =
    elim (Bool-cases (is_after t.lease_until checked_at)) [
      | inl live ↦
          elim (Bool-cases (any (is_own_log i.worker i.claim.log_id i.claim.lease_token) db.logs)) [
            | inl own ↦
                rw (live, own)
                  (settled-IsExclusive i.task_id (has_id i.task_id) _ (λ u. refl)
                    (λ u h. (list_beq_iff u.task_id i.task_id).0 h) _ _
                    (fail_log-Calms i.claim.started_at code now) (λ l r. cc) db.tasks db.logs
                    (own_log-covers i db.logs issued v.alone v.named m own) issued v)
            | inr own ↦ rw (live, own) v
          ]
      | inr dead ↦ rw dead v
    ]

pub finish-Holds :
    (i : Issued) (outcome : Result WorkerError DispatchMetrics)
    (checked_at now failed_at rechecked_at : ℕ) (db : Database) (issued : List Issued)
    → In i issued
    → Holds db issued
    → Holds
        (finish i.worker i.task_id i.claim outcome checked_at now failed_at rechecked_at db).0
        issued
unfolding finish fail_task
finish-Holds i (err e) checked_at now failed_at rechecked_at db issued m v =
    fail_read-Holds i (error_code (message e)) failed_at rechecked_at db _ issued m v
finish-Holds i (ok result) checked_at now failed_at rechecked_at db issued m v =
    from (complete_task i.worker i.task_id i.claim result checked_at now db) refl
  where
    from :
        (r : Result WorkerError (Database × Bool))
        → complete_task i.worker i.task_id i.claim result checked_at now db ≡ r
        → Holds
            (handle
              (λ e.
                fail_task i.worker i.task_id i.claim
                  (error_code (message e))
                  failed_at
                  rechecked_at
                  db)
              r).0
            issued
    from (ok r) e = complete-Holds i result checked_at now db r issued m e v
    from (err x) e =
        fail_read-Holds i (error_code (message x)) failed_at rechecked_at db _ issued m v
