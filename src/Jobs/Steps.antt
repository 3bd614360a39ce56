-- ===== src/Jobs/Steps.antt =====
-- Workers and the rest of the program as interleaved transactions.
pub mod Updates
pub mod Exclusion
pub mod Settling
pub mod Transactions
pub mod Claims
pub mod Reachable
use ota_api.Jobs.Policy.{PublishTaskStatus}
use ota_api.Jobs.Rows.{Database, Log, Task}
use ota_api.Jobs.Worker.{Claim, WorkerError, claim_task}
use ota_api.Jobs.Execution.{finish, renew_task_lease}
use ota_api.Realtime.Dispatch.{DispatchMetrics}
use ota_api.Prelude.{
  All, Bool, In, List, Option, Result, Text, [], nat_eq, none, ok, option_text_eq, some, text_eq, ℕ,
  ◌++◌, ◌∷◌, ◌≡◌, ◌≢◌,
}

-- A claim that a worker was given for a task.
pub record Issued : Type 0 where
  pub worker : Text
  pub task_id : Text
  pub claim : Claim

pub record System : Type 0 where
  pub db : Database
  pub issued : List Issued

-- The drawn identifier is that of no log and of no earlier claim.
abbrev pub IsFresh : Text → System → Type 0
IsFresh log_id s =
    All (λ (l : Log). l.log_id ≢ log_id) s.db.logs
    × All (λ (i : Issued). i.claim.log_id ≢ log_id) s.issued

-- A new row of `insertTask` in release-management.service.ts.
abbrev pub pending_task : Text → ℕ → Task
pending_task task_id now = record {
  task_id = task_id;
  status = PublishTaskStatus.pending;
  attempt_count = 0;
  max_attempts = 5;
  next_run_at = some now;
  lease_owner = none;
  lease_token = 0;
  lease_until = none;
  last_error_code = none;
  created_at = now;
  updated_at = now;
  finished_at = none;
}

-- Any worker may step at any time; a claim is used by the worker that holds it, in any order.
pub data Step (s : System) : System → Type 0 where
  claims :
      (worker : Text) (request_id : Option Text) (now : ℕ) (log_id task_id : Text) (db : Database)
      (c : Claim)
      → IsFresh log_id s
      → claim_task worker request_id now log_id task_id s.db ≡ ok (db, some c)
      → Step s (record {
        db = db;
        issued = record { worker = worker; task_id = task_id; claim = c } ∷ s.issued;
      })
  claims_nothing :
      (worker : Text) (request_id : Option Text) (now : ℕ) (log_id task_id : Text) (db : Database)
      → claim_task worker request_id now log_id task_id s.db ≡ ok (db, none)
      → Step s (record s { db = db })
  renews :
      (i : Issued) (progress : DispatchMetrics) (checked_at now : ℕ) (db : Database) (kept : Bool)
      → In i s.issued
      → renew_task_lease i.worker i.task_id i.claim.lease_token i.claim.effective_revision
          i.claim.log_id progress checked_at now s.db
        ≡ ok (db, kept)
      → Step s (record s { db = db })
  finishes :
      (i : Issued) (outcome : Result WorkerError DispatchMetrics)
      (checked_at now failed_at rechecked_at : ℕ)
      → In i s.issued
      → Step s (record s {
        db =
            (finish i.worker i.task_id i.claim outcome checked_at now failed_at rechecked_at
              s.db).0;
      })
  publishes :
      (task_id : Text) (now : ℕ) (revision : ℕ)
      → All (λ (t : Task). t.task_id ≢ task_id) s.db.tasks
      → All (λ (l : Log). l.task_id ≢ task_id) s.db.logs
      → Step s (record s {
        db = record {
          catalog_revision = some revision;
          tasks = s.db.tasks ++ pending_task task_id now ∷ [];
          logs = s.db.logs;
        };
      })

pub data Reach (s : System) : System → Type 0 where
  here : Reach s s
  next : {t u : System} → Reach s t → Step t u → Reach s u
