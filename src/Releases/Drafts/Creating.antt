-- ===== src/Releases/Drafts/Creating.antt =====
-- src/releases/release-draft.service.ts: the creation of a draft.
use ota_api.Audience.Changes.{Part, StoredAudience, Summary}
use ota_api.Jobs.Rows.{find_where}
use ota_api.Releases.{
  ReleaseAction, ChangeSummary, DraftContent, DraftStatus, ReleaseDb, StoredDraft, TargetType,
  bad_request, conflict, draft_created, no_summary,
}
use ota_api.Releases.Drafts.{draft_changed_fields, same_draft_content}
use ota_api.Releases.Drafts.Normalizing.{normalize_draft}
use ota_api.Releases.Policy.{Call, plan_change}
use ota_api.Releases.Records.{scope_text}
use ota_api.Releases.Success.{
  ReleaseSuccessAudit, insert_release_success_audit, ApplicationWriteAudit, insert_failure_audit,
}
use ota_api.Writes.{
  WriteError, other_error, query_failed, Driver, with_audited_application_write, reaches_write,
}
use ota_api.Prelude.{
  Bool, List, Option, Result, Text, [], any, err, false, if◌then◌else◌, is_empty, length, ltb,
  nat_eq, none, not, ok, option_text_eq, require, some, text_eq, true, ℕ, ◌&&◌, ◌++◌, ◌==◌, ◌>>=◌,
  ◌>>◌, ◌||◌, ◌∷◌,
}

-- what is answered of a draft
pub record DraftView : Type 0 where
  pub release_id : Text
  pub content : DraftContent
  pub status : DraftStatus
  pub release_sequence : Option ℕ
  pub created_at : ℕ
  pub updated_at : ℕ

-- `published_sequence ? Number(…) : null`
abbrev pub sequence_of : Option ℕ → Option ℕ
sequence_of none = none
sequence_of (some n) = if n == 0 then none else some n

-- `parseDraftPayload`
abbrev pub payload_of : Option DraftContent → Result WriteError DraftContent
payload_of none = err other_error
payload_of (some content) = ok content

abbrev pub view_of : StoredDraft → DraftContent → DraftView
view_of d content = record {
  release_id = d.release_id;
  content = content;
  status = d.status;
  release_sequence = sequence_of d.published_sequence;
  created_at = d.created_at;
  updated_at = d.updated_at;
}

unfoldable pub to_draft : StoredDraft → Result WriteError DraftView
to_draft d = payload_of d.payload >>= λ content. ok (view_of d content)

abbrev pub is_draft_of : Text → StoredDraft → Bool
is_draft_of release_id d = d.release_id == release_id

-- `draft.idempotency_key = …`, false on NULL
abbrev pub has_key : Text → StoredDraft → Bool
has_key key d = d.idempotency_key == some key

abbrev pub holds_key : Option Text → List StoredDraft → Bool
holds_key none ds = false
holds_key (some key) ds = any (has_key key) ds

-- the keys of the table: the release identifier and the idempotency key
unfoldable pub insert_draft : StoredDraft → ReleaseDb → Result WriteError ReleaseDb
unfolding any
insert_draft d db = do
  require
      (not (any (is_draft_of d.release_id) db.drafts)
        && not (holds_key d.idempotency_key db.drafts))
      query_failed
  ok (record db { drafts = db.drafts ++ d ∷ [] })

unfoldable pub draft_audit :
    ReleaseAction
    → TargetType
    → Text
    → Call
    → ChangeSummary
    → Summary × List Part
    → ReleaseSuccessAudit
draft_audit action target_type release_id call summary audience = record {
  context = call.context;
  operation_id = call.operation_id;
  release_id = release_id;
  action = action;
  target_type = target_type;
  task_id = none;
  revision_before = none;
  revision_after = none;
  change_summary = summary;
  audience = some audience;
  now = call.now;
}

abbrev pub fields_summary : List Text → ChangeSummary
fields_summary changed = record no_summary { changed_fields = some changed }

abbrev pub no_audience : StoredAudience
no_audience = record { scope = none; user_ids = [] }

abbrev pub audience_of : DraftContent → StoredAudience
audience_of d = record { scope = some d.release_scope; user_ids = d.user_ids }

-- the row of a new draft
abbrev pub new_draft : Text → DraftContent → Option Text → ℕ → StoredDraft
new_draft release_id content idempotency_key now = record {
  release_id = release_id;
  payload = some content;
  release_scope = scope_text content.release_scope;
  user_ids = some content.user_ids;
  status = DraftStatus.draft;
  published_sequence = none;
  idempotency_key = idempotency_key;
  created_at = now;
  updated_at = now;
}

-- behind the key: the draft is new
unfoldable pub create_new :
    Text → DraftContent → Option Text → Call → ReleaseDb → Result WriteError (DraftView × ReleaseDb)
unfolding plan_change insert_draft insert_release_success_audit draft_audit draft_changed_fields
create_new release_id normalized idempotency_key call db = do
  audience ← plan_change no_audience (audience_of normalized)
  inserted ← insert_draft (new_draft release_id normalized idempotency_key call.now) db
  ok (
    record {
      release_id = release_id;
      content = normalized;
      status = DraftStatus.draft;
      release_sequence = none;
      created_at = call.now;
      updated_at = call.now;
    },
    insert_release_success_audit
        (draft_audit draft_created TargetType.release_draft release_id call
          (fields_summary (draft_changed_fields none normalized)) audience)
        inserted,
  )

abbrev pub holds_content : Option DraftContent → DraftContent → Bool
holds_content none normalized = false
holds_content (some content) normalized = same_draft_content content normalized

-- the draft that has the key already, which is answered again
unfoldable pub replay :
    DraftContent → StoredDraft → ReleaseDb → Result WriteError (DraftView × ReleaseDb)
unfolding to_draft same_draft_content
replay normalized existing db = do
  require (holds_content existing.payload normalized) conflict
  view ← to_draft existing
  ok (view, db)

unfoldable pub create_or_replay :
    Text
    → DraftContent
    → Option Text
    → Call
    → ReleaseDb
    → Option StoredDraft
    → Result WriteError (DraftView × ReleaseDb)
unfolding create_new replay
create_or_replay release_id normalized idempotency_key call db none =
    create_new release_id normalized idempotency_key call db
create_or_replay release_id normalized idempotency_key call db (some existing) =
    replay normalized existing db

-- an empty key is no key
unfoldable pub find_by_key : Option Text → List StoredDraft → Option StoredDraft
unfolding find_where
find_by_key none ds = none
find_by_key (some key) ds = if is_empty key then none else find_where (has_key key) ds

abbrev pub is_too_long : Option Text → Bool
is_too_long none = false
is_too_long (some key) = ltb 191 (length key)

-- the write of `createDraft`, which is given the random identifier of a new draft
unfoldable pub create_write :
    (app_name release_id : Text)
    → DraftContent
    → Option Text
    → Call
    → ReleaseDb
    → Result WriteError (DraftView × ReleaseDb)
unfolding normalize_draft create_or_replay find_by_key
create_write app_name release_id body idempotency_key call db = do
  require (not (is_too_long idempotency_key)) bad_request
  normalized ← normalize_draft app_name body
  create_or_replay release_id normalized idempotency_key call db
      (find_by_key idempotency_key db.drafts)

abbrev pub fails : {E A : Type 0} → Result E A → Bool
fails (ok a) = false
fails (err e) = true

-- the identifier in the audit of a failure: the one of the draft that has the key, once the write has
-- found it
unfoldable pub created_id : Text → Option StoredDraft → Text
created_id release_id none = release_id
created_id release_id (some existing) = existing.release_id

unfoldable pub creation_id :
    (app_name release_id : Text) → DraftContent → Option Text → (ran : Bool) → ReleaseDb → Text
unfolding created_id find_by_key normalize_draft
creation_id app_name release_id body idempotency_key ran db =
    if not ran || (is_too_long idempotency_key || fails (normalize_draft app_name body))
    then release_id
    else created_id release_id (find_by_key idempotency_key db.drafts)

abbrev pub draft_failure : ReleaseAction → TargetType → Text → Call → ApplicationWriteAudit
draft_failure action target_type release_id call = record {
  operation_id = call.operation_id;
  context = call.context;
  release_id = release_id;
  action = action;
  target_type = target_type;
  change_summary = no_summary;
}

-- `createDraft`
unfoldable pub create_draft :
    (first second : Driver)
    → (table_prefix app_name release_id : Text) → DraftContent
    → Option Text
    → Call
    → ReleaseDb
    → ReleaseDb × Result WriteError DraftView
unfolding create_write creation_id with_audited_application_write insert_failure_audit reaches_write
create_draft first second table_prefix app_name release_id body idempotency_key call db =
    with_audited_application_write first second table_prefix
      (insert_failure_audit
        (draft_failure draft_created TargetType.release_draft
          (creation_id app_name release_id body idempotency_key (reaches_write first table_prefix)
            db)
          call)
        call.now)
      (create_write app_name release_id body idempotency_key call) db
