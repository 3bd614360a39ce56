-- ===== src/Releases/DraftAudience.antt =====
-- src/releases/release-management.service.ts: the audience of a draft, which is changed in place of the
-- policy while the release is not published.
pub mod Columns
pub mod Agreement
use ota_api.Audience.Normalizing.{NormalizedReleaseAudience, is_public, normalize_release_audience}
use ota_api.Contracts.Releases.{ReleaseScope, allowlist, public}
use ota_api.Jobs.Rows.{find_where}
use ota_api.Releases.{
  ChangeSummary, DraftContent, ReleaseDb, StoredDraft, TargetType, audience_changed,
  draft_audience_changed, no_summary,
}
use ota_api.Releases.Drafts.Creating.{draft_audit, draft_failure, is_draft_of, payload_of}
use ota_api.Releases.Drafts.Editing.{is_draft, set_content, stored_users}
use ota_api.Releases.Policy.{Call, mutate_policy, plan_change, read_scope}
use ota_api.Releases.Policy.Mutations.{
  or_bad_request, replacement, scope_change, scope_summary, user_count_summary,
}
use ota_api.Releases.Records.{scope_of}
use ota_api.Releases.Success.{
  ApplicationWriteAudit, insert_failure_audit, insert_release_success_audit,
}
use ota_api.Writes.{Driver, WriteError, other_error, with_audited_application_write, reaches_write}
use ota_api.Prelude.{
  Bool, List, Option, Result, Text, [], err, if◌then◌else◌, length, nat_eq, none, ok,
  option_text_eq, some, text, text_eq, ℕ, ◌&&◌, ◌==◌, ◌>>=◌, ◌>>◌,
}

pub data DraftAudienceMutation : Type 0 where
  to_users : List Text → DraftAudienceMutation
  to_scope : ReleaseScope → DraftAudienceMutation

-- what is answered of a draft's audience, whose status is still `draft`
pub record DraftAudience : Type 0 where
  pub release_id : Text
  pub release_scope : ReleaseScope
  pub user_ids : List Text

abbrev pub mutation_summary : DraftAudienceMutation → ChangeSummary
mutation_summary (to_users user_ids) = user_count_summary (length user_ids)
mutation_summary (to_scope scope) = scope_summary scope

abbrev pub current_scope : Text → ReleaseScope
current_scope t = if t == text "allowlist" then allowlist else public

abbrev pub next_scope : DraftAudienceMutation → ReleaseScope → ReleaseScope
next_scope (to_users user_ids) current = current
next_scope (to_scope scope) current = scope

abbrev pub next_user_ids : DraftAudienceMutation → List Text → List Text
next_user_ids (to_users user_ids) current = user_ids
next_user_ids (to_scope scope) current = if is_public scope then [] else current

-- `draft.release_id = :releaseId AND draft.status = 'draft'`
abbrev pub is_open_draft : Text → StoredDraft → Bool
is_open_draft release_id d = is_draft_of release_id d && is_draft d.status

unfoldable pub normalized_audience :
    Text
    → DraftAudienceMutation
    → DraftContent
    → List Text
    → Text
    → Result WriteError NormalizedReleaseAudience
unfolding or_bad_request normalize_release_audience
normalized_audience app_name mutation payload users scope = or_bad_request (
    normalize_release_audience (record {
      app_name = app_name;
      platforms = payload.platforms;
      release_scope = some (next_scope mutation (current_scope scope));
      user_ids = some (next_user_ids mutation users);
    }))

abbrev pub with_audience : DraftContent → NormalizedReleaseAudience → DraftContent
with_audience payload normalized = record payload {
  release_scope = normalized.release_scope;
  user_ids = normalized.user_ids;
}

-- behind the lock of an open draft
unfoldable pub change_open :
    (app_name release_id : Text)
    → DraftAudienceMutation
    → Call
    → StoredDraft
    → ReleaseDb
    → Result WriteError (Option DraftAudience × ReleaseDb)
unfolding normalized_audience plan_change set_content insert_release_success_audit draft_audit
change_open app_name release_id mutation call d db = do
  payload ← payload_of d.payload
  users ← stored_users other_error d.user_ids
  normalized ← normalized_audience app_name mutation payload users d.release_scope
  before ← read_scope (scope_of d.release_scope) users
  audience ←
      plan_change before
        (record { scope = some normalized.release_scope; user_ids = normalized.user_ids })
  ok (
    some (record {
      release_id = release_id;
      release_scope = normalized.release_scope;
      user_ids = normalized.user_ids;
    }),
    insert_release_success_audit
        (draft_audit draft_audience_changed TargetType.release_draft release_id call
          (record no_summary {
            release_scope = some normalized.release_scope;
            user_count = some (length normalized.user_ids);
          })
          audience)
        (set_content release_id (with_audience payload normalized) call.now db),
  )

unfoldable pub change_found :
    (app_name release_id : Text)
    → DraftAudienceMutation
    → Call
    → ReleaseDb
    → Option StoredDraft
    → Result WriteError (Option DraftAudience × ReleaseDb)
unfolding change_open
change_found app_name release_id mutation call db none = ok (none, db)
change_found app_name release_id mutation call db (some d) =
    change_open app_name release_id mutation call d db

unfoldable pub open_draft : Text → ReleaseDb → Option StoredDraft
unfolding find_where
open_draft release_id db =
    if db.has_drafts then find_where (is_open_draft release_id) db.drafts else none

-- the write of `mutateDraftAudience`
unfoldable pub draft_audience_write :
    (app_name release_id : Text)
    → DraftAudienceMutation
    → Call
    → ReleaseDb
    → Result WriteError (Option DraftAudience × ReleaseDb)
unfolding change_found open_draft
draft_audience_write app_name release_id mutation call db =
    change_found app_name release_id mutation call db (open_draft release_id db)

-- the audit of its failure, which becomes one of a draft once the write has found the draft
unfoldable pub audience_failure :
    Text → DraftAudienceMutation → Call → Option StoredDraft → ApplicationWriteAudit
audience_failure release_id mutation call none =
    record (draft_failure audience_changed TargetType.release release_id call) {
      change_summary = mutation_summary mutation;
    }
audience_failure release_id mutation call (some d) =
    record (draft_failure draft_audience_changed TargetType.release_draft release_id call) {
      change_summary = mutation_summary mutation;
    }

-- `mutateDraftAudience`
unfoldable pub mutate_draft_audience :
    (first second : Driver)
    → (table_prefix app_name release_id : Text) → DraftAudienceMutation
    → Call
    → ReleaseDb
    → ReleaseDb × Result WriteError (Option DraftAudience)
unfolding draft_audience_write audience_failure open_draft with_audited_application_write
    insert_failure_audit reaches_write
mutate_draft_audience first second table_prefix app_name release_id mutation call db =
    with_audited_application_write first second table_prefix
      (insert_failure_audit
        (audience_failure release_id mutation call
          (if reaches_write first table_prefix then open_draft release_id db else none))
        call.now)
      (draft_audience_write app_name release_id mutation call) db

-- what the two requests on an audience answer: the draft's audience, or the policy's revision
pub data AudienceAnswer : Type 0 where
  of_draft : DraftAudience → AudienceAnswer
  of_policy : ℕ → AudienceAnswer

-- The drivers of the four transactions, and the calls of the two writes, which have identifiers of
-- their own.
pub record AudienceCalls : Type 0 where
  pub draft_first : Driver
  pub draft_second : Driver
  pub policy_first : Driver
  pub policy_second : Driver
  pub draft_call : Call
  pub policy_call : Call

unfoldable pub answer_policy : Result WriteError ℕ → Result WriteError AudienceAnswer
answer_policy (ok revision) = ok (of_policy revision)
answer_policy (err e) = err e

-- the policy is changed where no draft is open
unfoldable pub unless_draft :
    ReleaseDb
    → Result WriteError (Option DraftAudience)
    → ReleaseDb × Result WriteError ℕ
    → ReleaseDb × Result WriteError AudienceAnswer
unfolding answer_policy
unless_draft db (err e) policy = (db, err e)
unless_draft db (ok (some answer)) policy = (db, ok (of_draft answer))
unless_draft db (ok none) (after, result) = (after, answer_policy result)

-- `replaceUsers`
unfoldable pub replace_release_users :
    (date : ℕ → Text)
    → AudienceCalls
    → (table_prefix app_name release_id : Text) → List Text
    → Option ℕ
    → ReleaseDb
    → ReleaseDb × Result WriteError AudienceAnswer
unfolding mutate_draft_audience unless_draft mutate_policy replacement
replace_release_users date calls table_prefix app_name release_id user_ids expected db =
    let (mid, answer) =
      mutate_draft_audience calls.draft_first calls.draft_second table_prefix app_name release_id
        (to_users user_ids) calls.draft_call db in
    unless_draft mid answer (
      mutate_policy calls.policy_first calls.policy_second table_prefix app_name release_id
        calls.policy_call
        (replacement date app_name release_id user_ids expected calls.policy_call.now) mid)

-- `changeScope`
unfoldable pub change_release_scope :
    AudienceCalls
    → (table_prefix app_name release_id : Text) → ReleaseScope
    → Option ℕ
    → ReleaseDb
    → ReleaseDb × Result WriteError AudienceAnswer
unfolding mutate_draft_audience unless_draft mutate_policy scope_change
change_release_scope calls table_prefix app_name release_id scope expected db =
    let (mid, answer) =
      mutate_draft_audience calls.draft_first calls.draft_second table_prefix app_name release_id
        (to_scope scope) calls.draft_call db in
    unless_draft mid answer (
      mutate_policy calls.policy_first calls.policy_second table_prefix app_name release_id
        calls.policy_call (scope_change release_id scope expected) mid)
