-- ===== src/Releases/Drafts/Publication.antt =====
-- What the publication of a draft is to leave, independently of the code that writes it.
use ota_api.Releases.Drafts.Marking.{
  IsChosen, artifacts_behind, drafts_behind, lock_artifact-IsChosen, published_artifacts_lem,
  published_drafts_lem,
}
use ota_api.Releases.Success.{audit_rows}
use ota_api.Releases.Drafts.Final.{IsFirst, IsRepeated, publish_write-steps}
use ota_api.Audience.Changes.{Part, Summary}
use ota_api.Audience.Changes.Completeness.{IsComplete}
use ota_api.Jobs.Rows.{find_where}
use ota_api.Releases.{
  AuditRow, DraftContent, DraftStatus, PublishTask, ReleaseDb, ReleaseRow, StoredArtifact,
  StoredDraft, TargetType, no_summary, publish, new_task,
}
use ota_api.Releases.Logged.{IsLogged, IsQueued, new_task-IsQueued, rows-IsLogged}
use ota_api.Releases.Drafts.Content.{IsReleaseOf, written-IsReleaseOf}
use ota_api.Releases.Drafts.Creating.{is_draft_of, sequence_of}
use ota_api.Releases.Drafts.Publishing.{Published, publish_audit, publish_write, set_published}
use ota_api.Releases.Policy.{Call}
use ota_api.Prelude.{
  List, Option, Text, [], ap, arith, inl, inr, map, nat_eq, none, ok, option_text_eq, some, subst,
  text_eq, ℕ, ◌++◌, ◌+◌, ◌∙◌, ◌∷◌, ◌≡◌, ◌⊎◌,
}

-- The draft is published now.
pub record IsPublished (app_name release_id : Text) (call : Call) (db : ReleaseDb)
    (answer : Published) (after : ReleaseDb) : Type 0 where
  pub stored : StoredDraft
  pub found : find_where (is_draft_of release_id) db.drafts ≡ some stored
  pub unpublished : stored.status ≡ DraftStatus.draft
  pub content : DraftContent
  pub payload : stored.payload ≡ some content
  pub artifact : Option StoredArtifact
  pub chosen : IsChosen content.artifact_id db.artifacts artifact
  pub row : ReleaseRow
  pub releases : after.releases ≡ db.releases ++ row ∷ []
  pub released : IsReleaseOf app_name release_id call content artifact db.next_sequence row
  pub users :
      after.release_users
      ≡ db.release_users
        ++ map
            (λ user_id. record {
              release_id = release_id;
              user_id = user_id;
              created_at = call.now;
            })
            content.user_ids
  pub drafts : after.drafts ≡ drafts_behind release_id db.next_sequence call.now db.drafts
  pub artifacts : after.artifacts ≡ artifacts_behind artifact call.now db.artifacts
  pub catalog :
      (n : ℕ) × (t : PublishTask) × (db.catalog_revision ≡ some n)
      × (after.catalog_revision ≡ some (n + 1))
      × (after.tasks ≡ db.tasks ++ t ∷ [])
      × IsQueued call.task_id call.operation_id release_id publish (n + 1) call.now t
  pub audited :
      (plan : Summary × List Part) × (rows : List AuditRow) × (after.audits ≡ db.audits ++ rows)
      × IsComplete
          (record { scope = none; user_ids = [] })
          (record { scope = some content.release_scope; user_ids = content.user_ids })
          plan.0
          plan.1
      × IsLogged
          (record {
            context = call.context;
            operation_id = call.operation_id;
            release_id = release_id;
            action = publish;
            target_type = TargetType.release;
            task_id = some call.task_id;
            revision_before = some 0;
            revision_after = some 1;
            change_summary = record no_summary { release_sequence = some db.next_sequence };
            audience = some plan;
            now = call.now;
          })
          1
          (map some plan.1)
          rows
  pub answered : answer ≡ record {
    release_id = release_id;
    release_sequence = db.next_sequence;
    task_id = some call.task_id;
    operation_id = some call.operation_id;
  }

-- The draft was published before, and is answered again from its row.
pub record IsAnswered (release_id : Text) (db : ReleaseDb) (answer : Published) (after : ReleaseDb)
    : Type 0 where
  pub stored : StoredDraft
  pub found : find_where (is_draft_of release_id) db.drafts ≡ some stored
  pub published : stored.status ≡ DraftStatus.published
  pub sequence : stored.published_sequence ≡ some answer.release_sequence
  pub same : after ≡ db
  pub answered : answer ≡ record {
    release_id = release_id;
    release_sequence = answer.release_sequence;
    task_id = none;
    operation_id = none;
  }

sequence_of-some : (o : Option ℕ) (n : ℕ) → sequence_of o ≡ some n → o ≡ some n
sequence_of-some none n h = absurd (cc h)
sequence_of-some (some k) n h = ground (arith, h)

repeated-IsAnswered :
    (release_id : Text) (db after : ReleaseDb) (answer : Published)
    → IsRepeated release_id db answer after
    → IsAnswered release_id db answer after
repeated-IsAnswered release_id db after answer r = record {
  stored = r.stored;
  found = r.found;
  published = r.published;
  sequence = sequence_of-some r.stored.published_sequence answer.release_sequence r.sequence;
  same = r.same;
  answered = r.answered;
}

first-IsPublished :
    (app_name release_id : Text) (call : Call) (db after : ReleaseDb) (answer : Published)
    → IsFirst app_name release_id call db answer after
    → IsPublished app_name release_id call db answer after
unfolding set_published publish_audit
first-IsPublished app_name release_id call db after answer f =
    let p = f.publication in
    let released =
      written-IsReleaseOf app_name release_id call f.payload p.artifact p.urls db.next_sequence
        p.row p.linked p.values in
    let k : p.row.release_sequence ≡ db.next_sequence = released.identity.0 in
    let (n, before, behind, tasks) = p.catalog in
    let (plan, complete, audits) = p.audited in
    record {
      stored = f.stored;
      found = f.found;
      unpublished = f.unpublished;
      content = f.payload;
      payload = f.content;
      artifact = p.artifact;
      chosen = lock_artifact-IsChosen f.payload.artifact_id db p.artifact p.locked;
      row = p.row;
      releases = p.releases;
      released = released;
      users = p.users;
      drafts =
          p.drafts
          ∙ published_drafts_lem release_id p.row.release_sequence call.now db.drafts
          ∙ ap (λ s. drafts_behind release_id s call.now db.drafts) k;
      artifacts = p.artifacts ∙ published_artifacts_lem p.artifact call.now db.artifacts;
      catalog = (
        n,
        new_task call.task_id call.operation_id release_id publish (n + 1) call.now,
        before,
        behind,
        tasks,
        new_task-IsQueued call.task_id call.operation_id release_id publish (n + 1) call.now,
      );
      audited = (
        plan,
        audit_rows (publish_audit release_id call p.row.release_sequence plan) 1 (map some plan.1),
        audits,
        complete,
        subst
            (λ s. IsLogged (publish_audit release_id call s plan) 1 (map some plan.1) (
              audit_rows (publish_audit release_id call p.row.release_sequence plan) 1
                (map some plan.1)))
            k
            (rows-IsLogged (publish_audit release_id call p.row.release_sequence plan) 1
              (map some plan.1)),
      );
      answered =
          p.answered
          ∙ ap
              (λ s. record {
                release_id = release_id;
                release_sequence = s;
                task_id = some call.task_id;
                operation_id = some call.operation_id;
              })
              k;
    }

-- A publication that succeeds either finds the draft published and changes nothing, answering its
-- sequence, or finds a draft and publishes it: the release has the draft's content under the next
-- sequence, with its switches on unless the draft turns them off and its artifact's size and link, and
-- the draft's users; the draft has that sequence; its artifact is published; the catalog is one revision
-- on with one more task, pending, due at once, for it; and the audit rows, one for each part, tell every
-- user, that sequence and the task.
pub publish_write-cases :
    (app_name release_id : Text) (call : Call) (db after : ReleaseDb) (answer : Published)
    → publish_write app_name release_id call db ≡ ok (answer, after)
    → IsAnswered release_id db answer after ⊎ IsPublished app_name release_id call db answer after
publish_write-cases app_name release_id call db after answer h =
    elim (publish_write-steps app_name release_id call db after answer h) [
      | inl r ↦ inl (repeated-IsAnswered release_id db after answer r)
      | inr f ↦ inr (first-IsPublished app_name release_id call db after answer f)
    ]
