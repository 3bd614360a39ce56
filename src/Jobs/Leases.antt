-- ===== src/Jobs/Leases.antt =====
-- What a claim, a stale claim and a failure mean for a publish task.
use ota_api.Jobs.Due.{IsDue, IsDue-can_claim}
use ota_api.Jobs.Policy.{
  can_claim_publish_task, PublishTaskStatus, delay_ms, publish_task_failure_transition,
}
use ota_api.Jobs.Rows.{
  Database, ErrorCode, Task, find_where, has_id, holds_lease, is_after, update_where, Log,
  LogStatus,
}
use ota_api.Jobs.Worker.{
  Claim, WorkerError, claim_read, error_code, has_revision, lease, lease_is_live, maximum_attempts,
  message, publish_emit_failed, require_catalog_revision, require_live_lease, revision_changed,
  task_lease_lost, claim_task, claim_with, effective_revision, expire_logs, lease_is_expired,
  new_log,
}
use ota_api.Jobs.Execution.{complete_task, fail_read, fail_task, finish}
use ota_api.Realtime.Dispatch.{DispatchMetrics}
use ota_api.Prelude.{
  >>=-eq-ok, Bool, Bool-cases, List, Option, Result, Text, [], any, ap, arith, err, false,
  if◌then◌else◌, inl, inr, leb, ltb, nat_eq, none, ok, option_text_eq, refl, some, suc, sym,
  text_eq, zero, ℕ, ◌&&◌, ◌++◌, ◌+◌, ◌-◌, ◌<◌, ◌==◌, ◌^◌, ◌∙◌, ◌∷◌, ◌≡◌, ◌≤◌, ◌⊎◌,
}

find_where-any :
    {A : Type 0} (p q : A → Bool) (xs : List A)
    → any p xs ≡ false
    → find_where (λ x. p x && q x) xs ≡ none
unfolding find_where any
find_where-any p q [] h = refl
find_where-any p q (x ∷ xs) h = ground (arith, find_where-any p q xs)

find_where-none :
    {A : Type 0} (p : A → Bool) (xs : List A) → any p xs ≡ false → find_where p xs ≡ none
unfolding find_where any
find_where-none p [] h = refl
find_where-none p (x ∷ xs) h = ground (arith, find_where-none p xs)

-- A claim whose lease no row carries
module _ (worker task_id : Text) (claim : Claim) (db : Database)
    (stale : any (holds_lease worker task_id claim.lease_token) db.tasks ≡ false) where
  fail_task-stale :
      (code : ErrorCode) (now checked_at : ℕ)
      → fail_task worker task_id claim code now checked_at db ≡ db
  unfolding fail_task fail_read
  fail_task-stale code now checked_at =
      rw
        (find_where-any (holds_lease worker task_id claim.lease_token)
          (λ t. is_after t.lease_until now) db.tasks stale)
        refl

  complete_task-stale :
      (result : DispatchMetrics) (checked_at now : ℕ)
      → (e : WorkerError) × (complete_task worker task_id claim result checked_at now db ≡ err e)
  unfolding complete_task require_live_lease lease_is_live require_catalog_revision
  complete_task-stale result checked_at now = elim (Bool-cases (result.counts.emit_errors == 0)) [
    | inr unsent ↦ (publish_emit_failed, rw unsent refl)
    | inl sent ↦ elim (Bool-cases (has_revision claim.effective_revision db.catalog_revision)) [
      | inr moved ↦ (revision_changed, rw (sent, moved) refl)
      | inl same ↦ (
        task_lease_lost,
        rw
            (
              sent,
              same,
              find_where-none (holds_lease worker task_id claim.lease_token) db.tasks stale,
            )
            refl,
      )
    ]
  ]

  -- Once no running row carries the claim's worker and token, finishing the claim, with any outcome at
  -- any times, changes nothing and reports no success.
  pub finish-stale :
      (outcome : Result WorkerError DispatchMetrics) (checked_at now failed_at rechecked_at : ℕ)
      → finish worker task_id claim outcome checked_at now failed_at rechecked_at db ≡ (db, false)
  unfolding finish
  finish-stale (err e) checked_at now failed_at rechecked_at =
      ap (λ d. (d, false)) (fail_task-stale (error_code (message e)) failed_at rechecked_at)
  finish-stale (ok result) checked_at now failed_at rechecked_at =
      let (e, h) = complete_task-stale result checked_at now in
      rw h (ap (λ d. (d, false)) (fail_task-stale (error_code (message e)) failed_at rechecked_at))

-- The attempts a task has: five where its row counts none.
pub allowed_attempts : ℕ → ℕ
allowed_attempts zero = 5
allowed_attempts (suc n) = suc n

allowed-maximum_attempts : (n m : ℕ) → (if n == 0 then 5 else n) ≡ m → m ≡ allowed_attempts n
unfolding allowed_attempts
allowed-maximum_attempts zero m h = sym h
allowed-maximum_attempts (suc n) m h = ground (arith, h)

-- The row that a claim read allowed it: due, not under a live lease, with an attempt left.
pub record MayClaim (now : ℕ) (read : Task) : Type 0 where
  pub due : IsDue read.status read now
  pub left : read.attempt_count < allowed_attempts read.max_attempts

find_where-update_where :
    (task_id : Text) (f : Task → Task) (xs : List Task) (t : Task)
    → ((u : Task) → (f u).task_id ≡ u.task_id)
    → find_where (has_id task_id) xs ≡ some t
    → find_where (has_id task_id) (update_where (has_id task_id) f xs) ≡ some (f t)
unfolding find_where update_where
find_where-update_where task_id f [] t k h = absurd (cc h)
find_where-update_where task_id f (x ∷ xs) t k h = elim (Bool-cases (has_id task_id x)) [
  | inl same ↦
      let p : x ≡ t = ground (arith, same, h) in
      rw (same, ap (λ i. i == task_id) (k x), same) (ap (λ u. some (f u)) p)
  | inr differs ↦
      rw (differs, differs) (find_where-update_where task_id f xs t k (ground (arith, differs, h)))
]

-- What an issued claim says of the row that was read, and of the tasks and the last execution after it.
pub record IsIssued (worker : Text) (request_id : Option Text) (now : ℕ) (log_id task_id : Text)
    (db after : Database) (c : Claim) (read : Task) : Type 0 where
  pub found : find_where (has_id task_id) db.tasks ≡ some read
  pub allowed : MayClaim now read
  pub leased :
      find_where (has_id task_id) after.tasks
      ≡ some (record read {
        status = PublishTaskStatus.running;
        attempt_count = read.attempt_count + 1;
        lease_owner = some worker;
        lease_token = read.lease_token + 1;
        lease_until = some (now + 300000);
        updated_at = now;
        finished_at = none;
      })
  pub logged :
      (earlier : List Log) × (after.logs
        ≡ earlier
          ++ record {
            log_id = log_id;
            task_id = task_id;
            attempt_no = read.attempt_count + 1;
            worker_id = worker;
            lease_token = read.lease_token + 1;
            status = LogStatus.running;
            effective_revision = c.effective_revision;
            started_at = now;
            finished_at = none;
            duration_ms = none;
            error_code = none;
            progress = none;
            last_checkpoint_at = none;
            metrics_complete = false;
            request_id = request_id;
          }
            ∷ [])
  pub token : c.lease_token ≡ read.lease_token + 1
  pub attempt : c.attempt_no ≡ read.attempt_count + 1
  pub log : c.log_id ≡ log_id
  pub start : c.started_at ≡ now
  pub revision : db.catalog_revision ≡ some c.effective_revision

claim_read-some :
    (worker : Text) (request_id : Option Text) (now : ℕ) (log_id task_id : Text)
    (db after : Database) (revision : ℕ) (read : Task) (c : Claim)
    → find_where (has_id task_id) db.tasks ≡ some read
    → db.catalog_revision ≡ some revision
    → claim_read worker request_id now log_id revision task_id db read ≡ (after, some c)
    → IsIssued worker request_id now log_id task_id db after c read
unfolding claim_read lease new_log maximum_attempts
claim_read-some worker request_id now log_id task_id db after revision read c found current h =
    elim (Bool-cases (can_claim_publish_task read.status read.next_run_at read.lease_until now)) [
      | inr cannot ↦ absurd (ground (arith, cannot, h))
      | inl can ↦ elim (Bool-cases (ltb (maximum_attempts read) (read.attempt_count + 1))) [
        | inl over ↦ absurd (ground (arith, can, over, h))
        | inr under ↦
            let p : update_where (has_id task_id) (lease worker read now) db.tasks ≡ after.tasks =
              ground (arith, can, under, h) in
            record {
              found = found;
              allowed = record {
                due = IsDue-can_claim read.status read now can;
                left = ground (
                  arith,
                  under,
                  allowed-maximum_attempts read.max_attempts (maximum_attempts read) refl,
                );
              };
              leased =
                  ap (find_where (has_id task_id)) (sym p)
                  ∙ find_where-update_where task_id (lease worker read now) db.tasks read
                      (λ u. refl) found;
              logged = (
                if lease_is_expired read now then expire_logs task_id now db.logs else db.logs,
                ground (arith, can, under, h),
              );
              token = ground (arith, can, under, h);
              attempt = ground (arith, can, under, h);
              log = ground (arith, can, under, h);
              start = ground (arith, can, under, h);
              revision = current ∙ ground (arith, can, under, h);
            }
      ]
    ]

claim_with-some :
    (worker : Text) (request_id : Option Text) (now : ℕ) (log_id task_id : Text)
    (db after : Database) (revision : ℕ) (o : Option Task) (c : Claim)
    → find_where (has_id task_id) db.tasks ≡ o
    → db.catalog_revision ≡ some revision
    → claim_with worker request_id now log_id task_id db revision o ≡ (after, some c)
    → (read : Task) × IsIssued worker request_id now log_id task_id db after c read
unfolding claim_with
claim_with-some worker request_id now log_id task_id db after revision none c found current h =
    absurd (cc h)
claim_with-some worker request_id now log_id task_id db after revision (some read) c found current
      h =
    (
      read,
      claim_read-some worker request_id now log_id task_id db after revision read c found current h,
    )

effective_revision-eq-ok : (o : Option ℕ) (n : ℕ) → effective_revision o ≡ ok n → o ≡ some n
unfolding effective_revision
effective_revision-eq-ok none n h = absurd (cc h)
effective_revision-eq-ok (some m) n h = ground (arith, h)

-- A transaction that issues a claim read a task that waited for a run that was due, or ran under a
-- lease that had ended, with an attempt left; the task is then running for the worker for five minutes
-- under the next token and the next attempt, the last execution that is logged is this one, running, and
-- the claim carries these and the catalog revision that was read.
pub claim_task-IsIssued :
    (worker : Text) (request_id : Option Text) (now : ℕ) (log_id task_id : Text)
    (db after : Database) (c : Claim)
    → claim_task worker request_id now log_id task_id db ≡ ok (after, some c)
    → (read : Task) × IsIssued worker request_id now log_id task_id db after c read
unfolding claim_task
claim_task-IsIssued worker request_id now log_id task_id db after c h =
    let (n, e, h1) = >>=-eq-ok (effective_revision db.catalog_revision) _ h in
    claim_with-some worker request_id now log_id task_id db after n _ c refl
      (effective_revision-eq-ok db.catalog_revision n e) (cc h1)

one_le_power : (n : ℕ) → 1 ≤ 2 ^ n
one_le_power zero = omega arith
one_le_power (suc n) = omega (arith, one_le_power n)

-- After a failure the next run is at least five seconds and at most five minutes away; the task fails
-- for good, with a finishing time, exactly from the last attempt on, and waits to be retried before.
pub publish_task_failure_transition-bounds :
    (attempt_no maximum now : ℕ)
    → let f = publish_task_failure_transition attempt_no maximum now in
      (now + 5000 ≤ f.next_run_at)
      × (f.next_run_at ≤ now + 300000)
      × (((maximum ≤ attempt_no)
            × (f.status ≡ PublishTaskStatus.failed)
            × (f.finished_at ≡ some now))
          ⊎ ((attempt_no < maximum)
              × (f.status ≡ PublishTaskStatus.retry_wait)
              × (f.finished_at ≡ none)))
unfolding publish_task_failure_transition delay_ms
publish_task_failure_transition-bounds attempt_no maximum now =
    let p = one_le_power (attempt_no - 1) in
    (
      omega (arith, p),
      omega arith,
      elim (Bool-cases (leb maximum attempt_no)) [
        | inl spent ↦ inl (ground (arith, spent), rw spent refl, rw spent refl)
        | inr early ↦ inr (ground (arith, early), rw early refl, rw early refl)
      ],
    )
