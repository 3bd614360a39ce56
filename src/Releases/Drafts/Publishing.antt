-- ===== src/Releases/Drafts/Publishing.antt =====
-- src/releases/release-draft.service.ts: the publication of a draft.
use ota_api.Audience.Changes.{Part, Summary}
use ota_api.Jobs.Rows.{find_where, update_where}
use ota_api.Releases.{
  ArtifactStatus, DraftContent, DraftStatus, ReleaseDb, StoredArtifact, TargetType, bad_request,
  conflict, increment_catalog_revision, insert_task, no_summary, other_status, publish,
}
use ota_api.Releases.Drafts.Normalizing.{ReleaseUrls, or_no_texts, release_urls}
use ota_api.Releases.Drafts.Creating.{
  audience_of, draft_failure, is_draft_of, no_audience, payload_of, sequence_of,
}
use ota_api.Releases.Drafts.Editing.{given, lock_draft}
use ota_api.Releases.Policy.{Call, insert_users, plan_change}
use ota_api.Releases.Records.{ReleaseWriteInput, insert_release}
use ota_api.Releases.Success.{
  ReleaseSuccessAudit, insert_failure_audit, insert_release_success_audit,
}
use ota_api.Writes.{Driver, WriteError, with_audited_application_write}
use ota_api.Prelude.{
  Bool, List, Option, Result, Text, err, false, if◌then◌else◌, is_empty, nat_eq, none, ok,
  option_text_eq, some, text_eq, true, ℕ, ◌==◌, ◌>>=◌,
}

-- what is answered of a publication; its task is absent where the draft was published before
pub record Published : Type 0 where
  pub release_id : Text
  pub release_sequence : ℕ
  pub task_id : Option Text
  pub operation_id : Option Text

abbrev pub repeated : Text → ℕ → Published
repeated release_id sequence = record {
  release_id = release_id;
  release_sequence = sequence;
  task_id = none;
  operation_id = none;
}

abbrev pub is_available : ArtifactStatus → Bool
is_available ArtifactStatus.pending = true
is_available ArtifactStatus.published = true
is_available (other_status s) = false

abbrev pub is_artifact : Text → StoredArtifact → Bool
is_artifact artifact_id a = a.artifact_id == artifact_id

-- `lockArtifact`
unfoldable pub available_artifact :
    Option StoredArtifact → Result WriteError (Option StoredArtifact)
available_artifact none = err bad_request
available_artifact (some a) = if is_available a.status then ok (some a) else err bad_request

-- the artifact of a draft that names one
unfoldable pub lock_artifact : Option Text → ReleaseDb → Result WriteError (Option StoredArtifact)
unfolding available_artifact find_where
lock_artifact none db = ok none
lock_artifact (some artifact_id) db =
    if is_empty artifact_id
    then ok none
    else available_artifact (find_where (is_artifact artifact_id) db.artifacts)

abbrev pub size_of : Option StoredArtifact → Option ℕ → Option ℕ
size_of none size = size
size_of (some a) size = some a.size_bytes

unfoldable pub write_input :
    (app_name release_id : Text)
    → DraftContent
    → ReleaseUrls
    → Option StoredArtifact
    → Call
    → ReleaseWriteInput
write_input app_name release_id payload urls artifact call = record {
  app_name = app_name;
  release_id = release_id;
  target_version = payload.target_version;
  platforms = payload.platforms;
  architectures = or_no_texts payload.architectures;
  distribution_channel = payload.distribution_channel;
  update_type = payload.update_type;
  release_scope = payload.release_scope;
  release_notes = payload.release_notes;
  artifact_size_bytes = size_of artifact payload.artifact_size_bytes;
  installer_source_url = urls.installer_source_url;
  bundle_url = urls.bundle_url;
  enabled = given payload.enabled true;
  mandatory = given payload.mandatory true;
  show_update_dialog = given payload.show_update_dialog true;
  created_at = call.now;
  source_ip = call.context.source_ip;
}

unfoldable pub published_artifacts :
    Option StoredArtifact → ℕ → List StoredArtifact → List StoredArtifact
unfolding update_where
published_artifacts none now artifacts = artifacts
published_artifacts (some artifact) now artifacts =
    update_where (is_artifact artifact.artifact_id)
      (λ a. record a { status = ArtifactStatus.published; updated_at = now }) artifacts

unfoldable pub publish_artifact : Option StoredArtifact → ℕ → ReleaseDb → ReleaseDb
unfolding published_artifacts
publish_artifact artifact now db = record db {
  artifacts = published_artifacts artifact now db.artifacts;
}

unfoldable pub set_published : Text → ℕ → ℕ → ReleaseDb → ReleaseDb
unfolding update_where
set_published release_id sequence now db = record db {
  drafts =
      update_where (is_draft_of release_id)
        (λ d. record d {
          status = DraftStatus.published;
          published_sequence = some sequence;
          updated_at = now;
        })
        db.drafts;
}

-- the statements on the users, the artifact and the draft, behind the insertion of the release
unfoldable pub put_published :
    Text → DraftContent → Option StoredArtifact → ℕ → ℕ → ReleaseDb → ReleaseDb
unfolding insert_users publish_artifact set_published
put_published release_id payload artifact sequence now db =
    set_published release_id sequence now
      (publish_artifact artifact now (insert_users release_id payload.user_ids now db))

unfoldable pub publish_audit : Text → Call → ℕ → Summary × List Part → ReleaseSuccessAudit
publish_audit release_id call sequence audience = record {
  context = call.context;
  operation_id = call.operation_id;
  release_id = release_id;
  action = publish;
  target_type = TargetType.release;
  task_id = some call.task_id;
  revision_before = some 0;
  revision_after = some 1;
  change_summary = record no_summary { release_sequence = some sequence };
  audience = some audience;
  now = call.now;
}

-- the end of the write: the task, the audit and the answer
unfoldable pub publish_end :
    Text → Call → ℕ → Summary × List Part → ℕ × ReleaseDb → Published × ReleaseDb
unfolding insert_task insert_release_success_audit publish_audit
publish_end release_id call sequence audience (catalog_revision, db) = (
  record {
    release_id = release_id;
    release_sequence = sequence;
    task_id = some call.task_id;
    operation_id = some call.operation_id;
  },
  insert_release_success_audit (publish_audit release_id call sequence audience)
      (insert_task call.task_id call.operation_id release_id publish catalog_revision call.now db),
)

-- a draft that is still one
unfoldable pub publish_draft :
    (app_name release_id : Text)
    → Option DraftContent
    → Call
    → ReleaseDb
    → Result WriteError (Published × ReleaseDb)
unfolding plan_change lock_artifact release_urls insert_release write_input put_published
    increment_catalog_revision publish_end
publish_draft app_name release_id stored call db = do
  payload ← payload_of stored
  audience ← plan_change no_audience (audience_of payload)
  artifact ← lock_artifact payload.artifact_id db
  urls ← release_urls payload artifact
  inserted ← insert_release app_name (write_input app_name release_id payload urls artifact call) db
  counted ←
      increment_catalog_revision
        (put_published release_id payload artifact inserted.0 call.now inserted.1)
  ok (publish_end release_id call inserted.0 audience counted)

-- one that was published with a sequence is answered again
unfoldable pub publish_locked :
    (app_name release_id : Text)
    → DraftStatus
    → Option ℕ
    → Option DraftContent
    → Call
    → ReleaseDb
    → Result WriteError (Published × ReleaseDb)
unfolding publish_draft
publish_locked app_name release_id DraftStatus.draft sequence stored call db =
    publish_draft app_name release_id stored call db
publish_locked app_name release_id DraftStatus.published none stored call db = err conflict
publish_locked app_name release_id DraftStatus.published (some sequence) stored call db =
    ok (repeated release_id sequence, db)

-- the write of `publish`
unfoldable pub publish_write :
    (app_name release_id : Text) → Call → ReleaseDb → Result WriteError (Published × ReleaseDb)
unfolding lock_draft publish_locked
publish_write app_name release_id call db = do
  d ← lock_draft release_id db
  publish_locked app_name release_id d.status (sequence_of d.published_sequence) d.payload call db

-- `publish`, up to the invalidation of the catalog that follows it
unfoldable pub publish_release :
    (first second : Driver)
    → (table_prefix app_name release_id : Text) → Call
    → ReleaseDb
    → ReleaseDb × Result WriteError Published
unfolding publish_write with_audited_application_write insert_failure_audit
publish_release first second table_prefix app_name release_id call db =
    with_audited_application_write first second table_prefix
      (insert_failure_audit (draft_failure publish TargetType.release release_id call) call.now)
      (publish_write app_name release_id call) db
