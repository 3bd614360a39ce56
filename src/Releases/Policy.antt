-- ===== src/Releases/Policy.antt =====
-- src/releases/release-management.service.ts: the changes of a published release's policy.
pub mod Mutations
pub mod Effects
pub mod Frames
pub mod Revisions
pub mod Applied
pub mod Stored
pub mod Audited
pub mod Outcomes
use ota_api.Audience.Changes.{Part, StoredAudience, Summary, plan_audience_change}
use ota_api.Audience.Normalizing.{max_release_users}
use ota_api.Contracts.Releases.{ReleaseScope}
use ota_api.Jobs.Rows.{find_where, update_where}
use ota_api.Releases.{
  ReleaseAction, ChangeSummary, ReleaseDb, ReleaseOperationContext, ReleaseRow, ReleaseUser,
  TargetType, conflict, increment_catalog_revision, insert_task, not_found,
}
use ota_api.Releases.Records.{has_release_id, is_release, scope_of}
use ota_api.Releases.Success.{
  ReleaseSuccessAudit, insert_failure_audit, insert_release_success_audit, ApplicationWriteAudit,
}
use ota_api.Writes.{Driver, WriteError, with_audited_application_write, reaches_write}
use ota_api.Prelude.{
  Bool, List, Option, Result, Text, err, filter, if◌then◌else◌, map, nat_eq, none, not, ok,
  option_text_eq, require, some, take, text_eq, true, ℕ, ◌++◌, ◌+◌, ◌==◌, ◌>>=◌, ◌>>◌,
}

-- `lockRelease`
unfoldable pub locked_release : Option ReleaseRow → Result WriteError ReleaseRow
locked_release none = err not_found
locked_release (some row) = ok row

unfoldable pub lock_release :
    (app_name release_id : Text) → ReleaseDb → Result WriteError ReleaseRow
unfolding locked_release find_where
lock_release app_name release_id db =
    locked_release (find_where (is_release app_name release_id) db.releases)

abbrev pub is_release_user : Text → ReleaseUser → Bool
is_release_user release_id u = u.release_id == release_id

unfoldable pub users_of : Text → ReleaseDb → List Text
unfolding filter
users_of release_id db =
    map (λ (u : ReleaseUser). u.user_id) (filter (is_release_user release_id) db.release_users)

-- `readAudience`: no more than one user beyond the limit is read
abbrev pub read_scope : Option ReleaseScope → List Text → Result WriteError StoredAudience
read_scope none users = err conflict
read_scope (some scope) users = ok (record { scope = some scope; user_ids = users })

-- A scope that is not one of the two is refused by `planAudienceChange`, which is what comes next.
unfoldable pub read_audience : Text → ReleaseRow → ReleaseDb → Result WriteError StoredAudience
unfolding users_of
read_audience release_id row db =
    read_scope (scope_of row.release_scope) (take (max_release_users + 1) (users_of release_id db))

-- the conflict that `planAudienceChange` throws, as the write's error
unfoldable pub or_conflict : {E A : Type 0} → Result E A → Result WriteError A
or_conflict (ok a) = ok a
or_conflict (err e) = err conflict

unfoldable pub plan_change :
    StoredAudience → StoredAudience → Result WriteError (Summary × List Part)
unfolding plan_audience_change or_conflict
plan_change before after = or_conflict (plan_audience_change before after)

unfoldable pub delete_users : Text → ReleaseDb → ReleaseDb
unfolding filter
delete_users release_id db = record db {
  release_users = filter (λ u. not (is_release_user release_id u)) db.release_users;
}

unfoldable pub insert_users : Text → List Text → ℕ → ReleaseDb → ReleaseDb
insert_users release_id user_ids now db = record db {
  release_users =
      db.release_users
      ++ map (λ user_id. record { release_id = release_id; user_id = user_id; created_at = now })
          user_ids;
}

-- What a change does. `noted` is the summary as `mutate` leaves it, since one change writes into it.
pub record PolicyMutation : Type 0 where
  pub action : ReleaseAction
  pub expected_revision : Option ℕ
  pub change_summary : ChangeSummary
  pub noted : ReleaseRow → ChangeSummary
  pub mutate : ReleaseRow → ReleaseDb → Result WriteError (Option (Summary × List Part) × ReleaseDb)

-- the identifiers and the time of one call
pub record Call : Type 0 where
  pub context : ReleaseOperationContext
  pub operation_id : Text
  pub task_id : Text
  pub now : ℕ

-- `Number(release.policy_revision) || 1`
abbrev pub revision_of : ReleaseRow → ℕ
revision_of row = if row.policy_revision == 0 then 1 else row.policy_revision

abbrev pub expects : Option ℕ → ℕ → Bool
expects none revision = true
expects (some expected) revision = expected == revision

unfoldable pub set_revision : Text → ℕ → ℕ → ReleaseDb → ReleaseDb
unfolding update_where
set_revision release_id revision now db = record db {
  releases =
      update_where (has_release_id release_id)
        (λ r. record r { policy_revision = revision; updated_at = now }) db.releases;
}

unfoldable pub success_audit :
    Text → Call → PolicyMutation → ReleaseRow → Option (Summary × List Part) → ReleaseSuccessAudit
success_audit release_id call mutation row audience = record {
  context = call.context;
  operation_id = call.operation_id;
  release_id = release_id;
  action = mutation.action;
  target_type = TargetType.release;
  task_id = some call.task_id;
  revision_before = some (revision_of row);
  revision_after = some (revision_of row + 1);
  change_summary = mutation.noted row;
  audience = audience;
  now = call.now;
}

-- the end of the write: the task and the audit
unfoldable pub policy_end :
    Text
    → Call
    → PolicyMutation
    → ReleaseRow
    → Option (Summary × List Part)
    → ℕ × ReleaseDb
    → ℕ × ReleaseDb
unfolding insert_task insert_release_success_audit success_audit
policy_end release_id call mutation row audience (catalog_revision, db) = (
  revision_of row + 1,
  insert_release_success_audit (success_audit release_id call mutation row audience) (
      insert_task call.task_id call.operation_id release_id mutation.action catalog_revision
        call.now db),
)

-- the write of `mutatePolicy`, and the revision that it returns
unfoldable pub policy_write :
    (app_name release_id : Text)
    → Call
    → PolicyMutation
    → ReleaseDb
    → Result WriteError (ℕ × ReleaseDb)
unfolding lock_release set_revision increment_catalog_revision policy_end
policy_write app_name release_id call mutation db = do
  row ← lock_release app_name release_id db
  require (expects mutation.expected_revision (revision_of row)) conflict
  mutated ← mutation.mutate row db
  counted ←
      increment_catalog_revision (set_revision release_id (revision_of row + 1) call.now mutated.1)
  ok (policy_end release_id call mutation row mutated.0 counted)

-- the summary in the audit of a failure, which a write that got as far as `mutate` has written into
unfoldable pub failure_summary : PolicyMutation → Result WriteError ReleaseRow → ChangeSummary
failure_summary mutation (err e) = mutation.change_summary
failure_summary mutation (ok row) =
    if expects mutation.expected_revision (revision_of row)
    then mutation.noted row
    else mutation.change_summary

-- the audit of a failure, as it stands once the write ran, or did not
unfoldable pub failure_audit :
    (app_name release_id : Text)
    → Call
    → PolicyMutation
    → (ran : Bool) → ReleaseDb
    → ApplicationWriteAudit
unfolding failure_summary lock_release
failure_audit app_name release_id call mutation ran db = record {
  operation_id = call.operation_id;
  context = call.context;
  release_id = release_id;
  action = mutation.action;
  target_type = TargetType.release;
  change_summary =
      if ran
      then failure_summary mutation (lock_release app_name release_id db)
      else mutation.change_summary;
}

-- `mutatePolicy`, up to the invalidation and the execution of the task that follow it
unfoldable pub mutate_policy :
    (first second : Driver)
    → (table_prefix app_name release_id : Text) → Call
    → PolicyMutation
    → ReleaseDb
    → ReleaseDb × Result WriteError ℕ
unfolding policy_write with_audited_application_write insert_failure_audit failure_audit
    reaches_write
mutate_policy first second table_prefix app_name release_id call mutation db =
    with_audited_application_write first second table_prefix
      (insert_failure_audit
        (failure_audit app_name release_id call mutation (reaches_write first table_prefix) db)
        call.now)
      (policy_write app_name release_id call mutation) db
