-- ===== src/Releases.antt =====
-- The rows of one application's releases, drafts, artifacts, publish tasks and audits, as
-- src/releases, src/audit and src/infrastructure/persistence read and write them. A row's random
-- `audit_id` and the columns that no statement here reads are left out; times are milliseconds.
pub mod Records
pub mod Success
pub mod Logged
pub mod Policy
pub mod Drafts
pub mod DraftAudience
mod Tests
use ota_api.Audience.Changes.{Part, Summary}
use ota_api.Contracts.Releases.{ReleaseScope, ReleaseUpdateType}
use ota_api.Jobs.Worker.{max_safe_integer}
use ota_api.Jobs.Rows.{Task}
use ota_api.Jobs.Policy.{PublishTaskStatus}
use ota_api.Writes.{FailureCode, WriteError, http_error, other_error}
use ota_api.Prelude.{
  Bool, List, Option, Result, Text, [], err, leb, nat_eq, none, ok, option_text_eq, require, some,
  text_eq, ℕ, ◌++◌, ◌+◌, ◌>>=◌, ◌>>◌, ◌∷◌,
}

pub record ReleaseOperationContext : Type 0 where
  pub request_id : Text
  pub source_ip : Option Text
  pub actor_key_id : Option Text
  pub actor_type : Option Text
  pub actor_name : Option Text

pub data ReleaseAction : Type 0 where
  publish enable disable audience_changed draft_audience_changed : ReleaseAction
  draft_created draft_updated redispatch : ReleaseAction

pub data TargetType : Type 0 where
  release release_draft : TargetType

-- the keys that the program writes into `change_summary`
pub record ChangeSummary : Type 0 where
  pub enabled : Option Bool
  pub redispatch : Option Bool
  pub release_scope : Option ReleaseScope
  pub user_count : Option ℕ
  pub release_sequence : Option ℕ
  pub changed_fields : Option (List Text)

abbrev pub no_summary : ChangeSummary
no_summary = record {
  enabled = none;
  redispatch = none;
  release_scope = none;
  user_count = none;
  release_sequence = none;
  changed_fields = none;
}

-- A JSON column for a list of texts: an array of texts, one with other elements, or no array at all.
pub data StoredList : Type 0 where
  texts : List Text → StoredList
  mixed_list other_json : StoredList

-- A row of the release table.
pub record ReleaseRow : Type 0 where
  pub release_sequence : ℕ
  pub app_name : Text
  pub release_id : Text
  pub release_scope : Text
  pub policy_revision : ℕ
  pub target_version : Text
  pub platforms : StoredList
  pub architectures : StoredList
  pub distribution_channel : Option Text
  pub update_type : Text
  pub release_notes : Option Text
  pub artifact_size_bytes : Option ℕ
  pub installer_source_url : Option Text
  pub bundle_url : Option Text
  pub is_enabled : ℕ
  pub is_mandatory : ℕ
  pub show_update_dialog : ℕ
  pub source_ip : Option Text
  pub created_at : ℕ
  pub updated_at : ℕ

pub record ReleaseUser : Type 0 where
  pub release_id : Text
  pub user_id : Text
  pub created_at : ℕ

-- the content of a draft: the body of the request that makes one
pub record DraftContent : Type 0 where
  pub target_version : Text
  pub platforms : List Text
  pub architectures : Option (List Text)
  pub distribution_channel : Option Text
  pub update_type : ReleaseUpdateType
  pub release_scope : ReleaseScope
  pub user_ids : List Text
  pub release_notes : Option Text
  pub artifact_id : Option Text
  pub installer_source_url : Option Text
  pub bundle_url : Option Text
  pub artifact_size_bytes : Option ℕ
  pub enabled : Option Bool
  pub mandatory : Option Bool
  pub show_update_dialog : Option Bool

pub data DraftStatus : Type 0 where
  draft published : DraftStatus

-- `payload` and `user_ids` are JSON columns: `none` where they hold no draft and no array of texts
pub record StoredDraft : Type 0 where
  pub release_id : Text
  pub payload : Option DraftContent
  pub release_scope : Text
  pub user_ids : Option (List Text)
  pub status : DraftStatus
  pub published_sequence : Option ℕ
  pub idempotency_key : Option Text
  pub created_at : ℕ
  pub updated_at : ℕ

pub data ArtifactStatus : Type 0 where
  pending published : ArtifactStatus
  other_status : Text → ArtifactStatus

pub record StoredArtifact : Type 0 where
  pub artifact_id : Text
  pub url : Text
  pub size_bytes : ℕ
  pub status : ArtifactStatus
  pub updated_at : ℕ

-- the columns that the worker reads and writes, and those that say what the task is for
pub record PublishTask : Type 0 where
  pub task : Task
  pub operation_id : Text
  pub release_id : Text
  pub action : ReleaseAction
  pub requested_revision : ℕ

-- `error_code` is `none` where the result is `succeeded`
pub record AuditRow : Type 0 where
  pub operation_id : Text
  pub part_no : ℕ
  pub context : ReleaseOperationContext
  pub actor_type : Text
  pub action : ReleaseAction
  pub target_type : TargetType
  pub release_id : Text
  pub task_id : Option Text
  pub revision_before : Option ℕ
  pub revision_after : Option ℕ
  pub change_summary : ChangeSummary
  pub audience : Option Summary
  pub change_detail : Option Part
  pub error_code : Option FailureCode
  pub created_at : ℕ

-- The tables of one application, its catalog revision, which is `none` where the registry has no row
-- of it, and the next value of the generated release sequence.
pub record ReleaseDb : Type 0 where
  pub catalog_revision : Option ℕ
  pub has_releases : Bool
  pub has_release_users : Bool
  pub has_drafts : Bool
  pub next_sequence : ℕ
  pub releases : List ReleaseRow
  pub release_users : List ReleaseUser
  pub drafts : List StoredDraft
  pub artifacts : List StoredArtifact
  pub tasks : List PublishTask
  pub audits : List AuditRow

-- The errors of a write, by the status that answers the request; a plain `Error` has none.
abbrev pub bad_request : WriteError
bad_request = http_error 400

abbrev pub not_found : WriteError
not_found = http_error 404

abbrev pub conflict : WriteError
conflict = http_error 409

abbrev pub new_task :
    (task_id operation_id release_id : Text) → ReleaseAction → (revision now : ℕ) → PublishTask
new_task task_id operation_id release_id action revision now = record {
  task = record {
    task_id = task_id;
    status = PublishTaskStatus.pending;
    attempt_count = 0;
    max_attempts = 5;
    next_run_at = some now;
    lease_owner = none;
    lease_token = 0;
    lease_until = none;
    last_error_code = none;
    created_at = now;
    updated_at = now;
    finished_at = none;
  };
  operation_id = operation_id;
  release_id = release_id;
  action = action;
  requested_revision = revision;
}

unfoldable pub insert_task :
    (task_id operation_id release_id : Text)
    → ReleaseAction
    → (revision now : ℕ) → ReleaseDb
    → ReleaseDb
insert_task task_id operation_id release_id action revision now db = record db {
  tasks = db.tasks ++ new_task task_id operation_id release_id action revision now ∷ [];
}

-- `incrementCatalogRevision`: a revision beyond the safe integers is an error
unfoldable pub increment_revision : Option ℕ → ReleaseDb → Result WriteError (ℕ × ReleaseDb)
increment_revision none db = err other_error
increment_revision (some revision) db = do
  require (leb (revision + 1) max_safe_integer) other_error
  ok (revision + 1, record db { catalog_revision = some (revision + 1) })

unfoldable pub increment_catalog_revision : ReleaseDb → Result WriteError (ℕ × ReleaseDb)
unfolding increment_revision
increment_catalog_revision db = increment_revision db.catalog_revision db
