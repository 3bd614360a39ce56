-- ===== src/Releases/Drafts/Editing.antt =====
-- src/releases/release-draft.service.ts: the edition of a draft.
use ota_api.Contracts.Releases.{ReleaseScope, ReleaseUpdateType}
use ota_api.Jobs.Rows.{find_where, update_where}
use ota_api.Releases.{
  DraftContent, DraftStatus, ReleaseDb, StoredDraft, TargetType, conflict, draft_updated, not_found,
}
use ota_api.Releases.Drafts.{draft_changed_fields, same_list}
use ota_api.Releases.Drafts.Normalizing.{normalize_draft, or_else}
use ota_api.Releases.Drafts.Creating.{
  DraftView, audience_of, draft_audit, draft_failure, fields_summary, is_draft_of, payload_of,
}
use ota_api.Releases.Policy.{Call, plan_change}
use ota_api.Releases.Records.{scope_text}
use ota_api.Releases.Success.{insert_failure_audit, insert_release_success_audit}
use ota_api.Writes.{Driver, WriteError, with_audited_application_write}
use ota_api.Prelude.{
  Bool, List, Option, Result, Text, err, false, nat_eq, none, ok, option_text_eq, require, some,
  text_eq, true, ℕ, ◌&&◌, ◌==◌, ◌>>=◌, ◌>>◌,
}

-- the fields of an edition, each of which may be absent
pub record DraftEdition : Type 0 where
  pub target_version : Option Text
  pub platforms : Option (List Text)
  pub architectures : Option (List Text)
  pub distribution_channel : Option Text
  pub update_type : Option ReleaseUpdateType
  pub release_scope : Option ReleaseScope
  pub user_ids : Option (List Text)
  pub release_notes : Option Text
  pub artifact_id : Option Text
  pub installer_source_url : Option Text
  pub bundle_url : Option Text
  pub artifact_size_bytes : Option ℕ
  pub enabled : Option Bool
  pub mandatory : Option Bool
  pub show_update_dialog : Option Bool

abbrev pub given : {A : Type 0} → Option A → A → A
given none a = a
given (some b) a = b

-- `{ ...current, ...body }`
unfoldable pub edited : DraftContent → DraftEdition → DraftContent
edited d e = record {
  target_version = given e.target_version d.target_version;
  platforms = given e.platforms d.platforms;
  architectures = or_else e.architectures d.architectures;
  distribution_channel = or_else e.distribution_channel d.distribution_channel;
  update_type = given e.update_type d.update_type;
  release_scope = given e.release_scope d.release_scope;
  user_ids = given e.user_ids d.user_ids;
  release_notes = or_else e.release_notes d.release_notes;
  artifact_id = or_else e.artifact_id d.artifact_id;
  installer_source_url = or_else e.installer_source_url d.installer_source_url;
  bundle_url = or_else e.bundle_url d.bundle_url;
  artifact_size_bytes = or_else e.artifact_size_bytes d.artifact_size_bytes;
  enabled = or_else e.enabled d.enabled;
  mandatory = or_else e.mandatory d.mandatory;
  show_update_dialog = or_else e.show_update_dialog d.show_update_dialog;
}

abbrev pub is_draft : DraftStatus → Bool
is_draft DraftStatus.draft = true
is_draft DraftStatus.published = false

-- `lockDraft`
abbrev pub locked_draft : Option StoredDraft → Result WriteError StoredDraft
locked_draft none = err not_found
locked_draft (some d) = ok d

unfoldable pub lock_draft : Text → ReleaseDb → Result WriteError StoredDraft
unfolding find_where
lock_draft release_id db = locked_draft (find_where (is_draft_of release_id) db.drafts)

abbrev pub stored_users : WriteError → Option (List Text) → Result WriteError (List Text)
stored_users thrown none = err thrown
stored_users thrown (some users) = ok users

-- the columns that an edition sets
unfoldable pub set_content : Text → DraftContent → ℕ → ReleaseDb → ReleaseDb
unfolding update_where
set_content release_id content now db = record db {
  drafts =
      update_where (is_draft_of release_id)
        (λ d. record d {
          payload = some content;
          release_scope = scope_text content.release_scope;
          user_ids = some content.user_ids;
          updated_at = now;
        })
        db.drafts;
}

-- the columns of the audience against the payload
abbrev pub agrees : StoredDraft → DraftContent → List Text → Bool
agrees d current users =
    d.release_scope == scope_text current.release_scope && same_list users current.user_ids

-- a draft that is still one
unfoldable pub edit_draft :
    (app_name release_id : Text)
    → DraftEdition
    → Call
    → ReleaseDb
    → StoredDraft
    → Result WriteError (DraftView × ReleaseDb)
unfolding normalize_draft edited plan_change set_content insert_release_success_audit draft_audit
    draft_changed_fields
edit_draft app_name release_id body call db d = do
  current ← payload_of d.payload
  users ← stored_users conflict d.user_ids
  require (agrees d current users) conflict
  normalized ← normalize_draft app_name (edited current body)
  audience ←
      plan_change (record { scope = some current.release_scope; user_ids = users })
        (audience_of normalized)
  ok (
    record {
      release_id = release_id;
      content = normalized;
      status = DraftStatus.draft;
      release_sequence = none;
      created_at = d.created_at;
      updated_at = call.now;
    },
    insert_release_success_audit
        (draft_audit draft_updated TargetType.release_draft release_id call
          (fields_summary (draft_changed_fields (some current) normalized)) audience)
        (set_content release_id normalized call.now db),
  )

-- the write of `updateDraft`
unfoldable pub update_write :
    (app_name release_id : Text)
    → DraftEdition
    → Call
    → ReleaseDb
    → Result WriteError (DraftView × ReleaseDb)
unfolding lock_draft edit_draft
update_write app_name release_id body call db = do
  d ← lock_draft release_id db
  require (is_draft d.status) conflict
  edit_draft app_name release_id body call db d

-- `updateDraft`
unfoldable pub update_draft :
    (first second : Driver)
    → (table_prefix app_name release_id : Text) → DraftEdition
    → Call
    → ReleaseDb
    → ReleaseDb × Result WriteError DraftView
unfolding update_write with_audited_application_write insert_failure_audit
update_draft first second table_prefix app_name release_id body call db =
    with_audited_application_write first second table_prefix
      (insert_failure_audit (draft_failure draft_updated TargetType.release_draft release_id call)
        call.now)
      (update_write app_name release_id body call) db
