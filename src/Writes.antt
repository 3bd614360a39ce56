-- ===== src/Writes.antt =====
-- src/infrastructure/persistence/application-write-transaction.ts and
-- src/audit/application-write-audit.ts: a write to an application's tables, and the audit of one that
-- fails. The driver and the database server are not part of the repository: `Driver` says how each of
-- their calls ends.
pub mod Durability
mod Tests
use ota_api.Prelude.{
  Bool, Option, Result, Text, err, false, if◌then◌else◌, leb, nat_eq, none, not, ok, option_text_eq,
  some, text, text_eq, true, ℕ, ◌&&◌, ◌==◌, ◌||◌,
}

pub data Outcome : Type 0 where
  not_started writing committing committed rolled_back unknown : Outcome

-- the mapping of an application, as registered and as the request was given it
pub record ApplicationRow : Type 0 where
  pub table_prefix : Text
  pub status : Text
  pub schema_version : ℕ

-- `COMMIT`: acknowledged, refused, or done with its acknowledgement lost
pub data Commit : Type 0 where
  acknowledged refused acknowledgement_lost : Commit

-- The errors, with what `failureCode` tells of those that the write throws.
pub data WriteError : Type 0 where
  write_busy application_not_ready : WriteError
  http_error : ℕ → WriteError
  query_failed other_error : WriteError

-- How the calls of one transaction end: `false` and `none` are errors of the driver, which throw
-- `thrown`; only the first that is thrown is seen.
pub record Driver : Type 0 where
  pub connects : Bool
  pub acquires : Option Bool
  pub begins : Bool
  pub reads : Option (Option ApplicationRow)
  pub commits : Commit
  pub stays_active : Bool
  pub rolls_back : Bool
  pub unlocks : Bool
  pub releases : Bool
  pub thrown : WriteError

-- the row is there, ready, and maps the application as the request was given it
abbrev pub is_prepared : Text → Option ApplicationRow → Bool
is_prepared table_prefix none = false
is_prepared table_prefix (some row) =
    row.status == text "ready" && (leb 1 row.schema_version && row.table_prefix == table_prefix)

abbrev pub holds : Option Bool → Bool
holds none = false
holds (some b) = b

abbrev pub reads_prepared : Text → Option (Option ApplicationRow) → Bool
reads_prepared table_prefix none = false
reads_prepared table_prefix (some row) = is_prepared table_prefix row

-- whether a transaction gets as far as the write itself
unfoldable pub reaches_write : Driver → Text → Bool
reaches_write d table_prefix =
    d.connects && (holds d.acquires && (d.begins && reads_prepared table_prefix d.reads))

-- The `try` block: the state that it leaves and what the database then holds for good.
pub record Attempt (Db A : Type 0) : Type 0 where
  pub outcome : Outcome
  pub locked : Bool
  pub commit_attempted : Bool
  pub stored : Db
  pub result : Result WriteError A

-- the `catch` block: the outcome behind an error
unfoldable pub outcome_after : Driver → Bool → Outcome → Outcome
outcome_after d commit_attempted outcome =
    if commit_attempted
    then unknown
    else if d.stays_active
    then (if d.rolls_back then rolled_back else unknown)
    else outcome

-- the `finally` block: its failure is thrown where there is no earlier one
unfoldable pub cleaned : {A : Type 0} → Driver → Bool → Result WriteError A → Result WriteError A
cleaned d locked (err e) = err e
cleaned d locked (ok a) = if (not locked || d.unlocks) && d.releases then ok a else err d.thrown

-- what a write leaves: the state's outcome, the database, and the result or the error thrown
pub record Written (Db A : Type 0) : Type 0 where
  pub outcome : Outcome
  pub stored : Db
  pub result : Result WriteError A

module _ {Db A : Type 0} where
  unfoldable pub commit : WriteError → Commit → Db → Db → A → Attempt Db A
  commit thrown acknowledged before after a = record {
    outcome = committed;
    locked = true;
    commit_attempted = true;
    stored = after;
    result = ok a;
  }
  commit thrown refused before after a = record {
    outcome = committing;
    locked = true;
    commit_attempted = true;
    stored = before;
    result = err thrown;
  }
  commit thrown acknowledgement_lost before after a = record {
    outcome = committing;
    locked = true;
    commit_attempted = true;
    stored = after;
    result = err thrown;
  }

  -- an attempt that ends before `COMMIT`
  abbrev pub stop : Outcome → Bool → Db → WriteError → Attempt Db A
  stop outcome locked db e = record {
    outcome = outcome;
    locked = locked;
    commit_attempted = false;
    stored = db;
    result = err e;
  }

  unfoldable pub write_with : WriteError → Commit → Db → Result WriteError (A × Db) → Attempt Db A
  unfolding commit
  write_with thrown commits db (err e) = stop writing true db e
  write_with thrown commits db (ok (a, after)) = commit thrown commits db after a

  unfoldable pub transact :
      Driver
      → Text
      → (Db → Result WriteError (A × Db))
      → Db
      → Option (Option ApplicationRow)
      → Attempt Db A
  unfolding write_with
  transact d table_prefix write db none = stop writing true db d.thrown
  transact d table_prefix write db (some row) =
      if is_prepared table_prefix row
      then write_with d.thrown d.commits db (write db)
      else stop writing true db application_not_ready

  unfoldable pub locked_by :
      Driver → Text → (Db → Result WriteError (A × Db)) → Db → Option Bool → Attempt Db A
  unfolding transact
  locked_by d table_prefix write db none = stop not_started false db d.thrown
  locked_by d table_prefix write db (some false) = stop not_started false db write_busy
  locked_by d table_prefix write db (some true) =
      if d.begins then transact d table_prefix write db d.reads else stop unknown true db d.thrown

  unfoldable pub attempt : Driver → Text → (Db → Result WriteError (A × Db)) → Db → Attempt Db A
  unfolding locked_by
  attempt d table_prefix write db =
      if d.connects
      then locked_by d table_prefix write db d.acquires
      else stop not_started false db d.thrown

  unfoldable pub caught : Driver → Attempt Db A → Result WriteError A → Outcome
  unfolding outcome_after
  caught d t (ok a) = t.outcome
  caught d t (err e) = outcome_after d t.commit_attempted t.outcome

  unfoldable pub with_application_write :
      Driver → Text → (Db → Result WriteError (A × Db)) → Db → Written Db A
  unfolding attempt caught cleaned
  with_application_write d table_prefix write db =
      let t = attempt d table_prefix write db in
      record {
        outcome = caught d t t.result;
        stored = t.stored;
        result = cleaned d t.locked t.result;
      }

pub data FailureCode : Type 0 where
  invalid_operation release_not_found operation_conflict database_write_failed
        application_operation_failed :
      FailureCode

-- `failureCode`; the transaction's own errors are conflicts
unfoldable pub failure_code : WriteError → FailureCode
failure_code write_busy = operation_conflict
failure_code application_not_ready = operation_conflict
failure_code (http_error status) =
    if status == 400
    then invalid_operation
    else if status == 404
    then release_not_found
    else if status == 409
    then operation_conflict
    else application_operation_failed
failure_code query_failed = database_write_failed
failure_code other_error = application_operation_failed

-- `['not_started', 'rolled_back'].includes(outcome)`
abbrev pub is_undone : Outcome → Bool
is_undone not_started = true
is_undone rolled_back = true
is_undone _ = false

module _ {Db A : Type 0} where
  -- what the database holds behind the failure of a write: `insert` writes the failure's audit
  unfoldable pub audit_failure :
      Driver
      → Text
      → (FailureCode → Db → Result WriteError (Unit {0} × Db))
      → Outcome
      → Db
      → Result WriteError A
      → Db
  unfolding with_application_write failure_code
  audit_failure d table_prefix insert outcome db (ok a) = db
  audit_failure d table_prefix insert outcome db (err e) =
      if is_undone outcome
      then (with_application_write d table_prefix (insert (failure_code e)) db).stored
      else db

  -- `withAuditedApplicationWrite`, with the driver of the write and that of the audit
  unfoldable pub with_audited_application_write :
      Driver
      → Driver
      → Text
      → (FailureCode → Db → Result WriteError (Unit {0} × Db))
      → (Db → Result WriteError (A × Db))
      → Db
      → Db × Result WriteError A
  unfolding with_application_write audit_failure
  with_audited_application_write first second table_prefix insert write db =
      let w = with_application_write first table_prefix write db in
      (audit_failure second table_prefix insert w.outcome w.stored w.result, w.result)
