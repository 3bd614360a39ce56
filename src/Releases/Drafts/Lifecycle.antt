-- ===== src/Releases/Drafts/Lifecycle.antt =====
-- A draft before and after its publication.
use ota_api.Releases.Policy.Stored.{planned, stored}
use ota_api.Releases.Drafts.Keys.{payload_of-eq-ok}
use ota_api.Audience.Changes.{Part, Summary}
use ota_api.Audience.Changes.Completeness.{IsComplete, plan_audience_change-IsComplete}
use ota_api.Releases.{
  DraftContent, ReleaseDb, ReleaseRow, StoredArtifact, increment_catalog_revision, insert_task,
  new_task, publish,
}
use ota_api.Releases.Drafts.Normalizing.{ReleaseUrls, release_urls}
use ota_api.Releases.Drafts.Creating.{audience_of, no_audience, payload_of}
use ota_api.Releases.Drafts.Publishing.{
  Published, lock_artifact, publish_artifact, publish_audit, publish_draft, publish_end,
  published_artifacts, put_published, set_published, write_input,
}
use ota_api.Releases.Policy.{Call, insert_users, plan_change}
use ota_api.Releases.Policy.Revisions.{increment-Counts}
use ota_api.Releases.Records.{
  ReleaseWriteInput, has_release_id, insert_release, release_write_values,
}
use ota_api.Releases.Success.{audit_rows, insert_release_success_audit}
use ota_api.Writes.{WriteError, other_error, query_failed}
use ota_api.Prelude.{
  >>=-eq-ok, List, Option, Text, [], any, ap, arith, leb, map, nat_eq, not, ok, ok_value,
  option_text_eq, refl, require, require-eq-ok, some, subst, sym, text_eq, ℕ, ◌++◌, ◌+◌, ◌==◌, ◌∙◌,
  ◌∷◌, ◌≡◌, ◌≤◌,
}

insert_release-eq-ok :
    (app_name : Text) (input : ReleaseWriteInput) (db : ReleaseDb) (r : ℕ × ReleaseDb)
    → insert_release app_name input db ≡ ok r
    → (row : ReleaseRow) × (release_write_values input db.next_sequence ≡ ok row)
      × (1 ≤ row.release_sequence)
      × ((
        row.release_sequence,
        record db { releases = db.releases ++ row ∷ []; next_sequence = db.next_sequence + 1 },
      )
          ≡ r)
unfolding insert_release
insert_release-eq-ok app_name input db r h =
    let (row, e, h1) = >>=-eq-ok (release_write_values input db.next_sequence) _ {end = r} h in
    let (u, _, h2) = >>=-eq-ok (require (input.app_name == app_name) other_error) _ {end = r} h1 in
    let (v, _, h3) =
      >>=-eq-ok (require (not (any (has_release_id input.release_id) db.releases)) query_failed) _
        {end = r} h2 in
    let (w, positive, h4) =
      >>=-eq-ok (require (leb 1 row.release_sequence) other_error) _ {end = r} h3 in
    (
      row,
      e,
      ground (arith, require-eq-ok (leb 1 row.release_sequence) other_error w positive),
      ok_value {E = WriteError} _ _ refl r h4,
    )

-- What the publication of a draft leaves: the release with the draft's content as its row, the draft
-- published with its sequence, the users of the draft, its artifact published, the catalog one
-- revision on, a task for that revision and the audit rows, which tell all the users.
pub record IsPublication (app_name release_id : Text) (call : Call) (payload : DraftContent)
    (db : ReleaseDb) (answer : Published) (after : ReleaseDb) : Type 0 where
  pub artifact : Option StoredArtifact
  pub locked : lock_artifact payload.artifact_id db ≡ ok artifact
  pub urls : ReleaseUrls
  pub linked : release_urls payload artifact ≡ ok urls
  pub row : ReleaseRow
  pub values :
      release_write_values
        (write_input app_name release_id payload urls artifact call)
        db.next_sequence
      ≡ ok row
  pub sequence : (answer.release_sequence ≡ row.release_sequence) × (1 ≤ row.release_sequence)
  pub releases : after.releases ≡ db.releases ++ row ∷ []
  pub users :
      after.release_users
      ≡ db.release_users
        ++ map
            (λ user_id. record {
              release_id = release_id;
              user_id = user_id;
              created_at = call.now;
            })
            payload.user_ids
  pub drafts : after.drafts ≡ (set_published release_id row.release_sequence call.now db).drafts
  pub artifacts : after.artifacts ≡ published_artifacts artifact call.now db.artifacts
  pub catalog :
      (n : ℕ) × (db.catalog_revision ≡ some n)
      × (after.catalog_revision ≡ some (n + 1))
      × (after.tasks
          ≡ db.tasks
            ++ new_task call.task_id call.operation_id release_id publish (n + 1) call.now ∷ [])
  pub audited :
      (plan : Summary × List Part) × IsComplete no_audience (audience_of payload) plan.0 plan.1
      × (after.audits
          ≡ db.audits
            ++ audit_rows
                (publish_audit release_id call row.release_sequence plan)
                1
                (map some plan.1))
  pub answered : answer ≡ record {
    release_id = release_id;
    release_sequence = row.release_sequence;
    task_id = some call.task_id;
    operation_id = some call.operation_id;
  }

published-as :
    (app_name release_id : Text) (call : Call) (payload : DraftContent) (db : ReleaseDb)
    (answer : Published) (after : ReleaseDb) (artifact : Option StoredArtifact) (urls : ReleaseUrls)
    (row : ReleaseRow) (plan : Summary × List Part) (n : ℕ)
    → lock_artifact payload.artifact_id db ≡ ok artifact
    → release_urls payload artifact ≡ ok urls
    → release_write_values
        (write_input app_name release_id payload urls artifact call)
        db.next_sequence
      ≡ ok row
    → 1 ≤ row.release_sequence
    → plan_change no_audience (audience_of payload) ≡ ok plan
    → db.catalog_revision ≡ some n
    → publish_end release_id call row.release_sequence plan (
      n + 1,
      record (put_published release_id payload artifact row.release_sequence call.now (record db {
        releases = db.releases ++ row ∷ [];
        next_sequence = db.next_sequence + 1;
      })) { catalog_revision = some (n + 1) },
    )
      ≡ (answer, after)
    → IsPublication app_name release_id call payload db answer after
unfolding publish_end insert_task insert_release_success_audit put_published insert_users
    publish_artifact set_published publish_audit
published-as app_name release_id call payload db answer after artifact urls row plan n a l values
      positive p revision ended =
    subst (λ (r : Published × ReleaseDb). IsPublication app_name release_id call payload db r.0 r.1)
      ended
      (record {
        artifact = artifact;
        locked = a;
        urls = urls;
        linked = l;
        row = row;
        values = values;
        sequence = (refl, positive);
        releases = refl;
        users = refl;
        drafts = refl;
        artifacts = refl;
        catalog = (n, revision, refl, refl);
        audited = (
          plan,
          plan_audience_change-IsComplete no_audience (audience_of payload) plan.0 plan.1
              (planned no_audience (audience_of payload) plan p),
          refl,
        );
        answered = refl;
      })

pub publish_draft-IsPublication :
    (app_name release_id : Text) (stored : Option DraftContent) (call : Call) (db after : ReleaseDb)
    (answer : Published)
    → publish_draft app_name release_id stored call db ≡ ok (answer, after)
    → (payload : DraftContent) × (stored ≡ some payload)
      × IsPublication app_name release_id call payload db answer after
unfolding publish_draft put_published insert_users publish_artifact set_published
publish_draft-IsPublication app_name release_id stored call db after answer h =
    let (payload, e, h1) = >>=-eq-ok (payload_of stored) _ {end = (answer, after)} h in
    let (plan, p, h2) =
      >>=-eq-ok (plan_change no_audience (audience_of payload)) _ {end = (answer, after)} h1 in
    let (artifact, a, h3) =
      >>=-eq-ok (lock_artifact payload.artifact_id db) _ {end = (answer, after)} h2 in
    let (urls, l, h4) = >>=-eq-ok (release_urls payload artifact) _ {end = (answer, after)} h3 in
    let (i, q, h5) =
      >>=-eq-ok
        (insert_release app_name (write_input app_name release_id payload urls artifact call) db) _
        {end = (answer, after)} h4 in
    let (c, k, h6) =
      >>=-eq-ok
        (increment_catalog_revision (put_published release_id payload artifact i.0 call.now i.1)) _
        {end = (answer, after)} h5 in
    let (row, values, positive, same) =
      insert_release-eq-ok app_name (write_input app_name release_id payload urls artifact call) db
        i q in
    let (n, revision, counted) =
      increment-Counts (put_published release_id payload artifact i.0 call.now i.1) c k in
    (
      payload,
      payload_of-eq-ok stored payload e,
      published-as app_name release_id call payload db answer after artifact urls row plan n a l
          values positive p (ap (λ (r : ℕ × ReleaseDb). r.1.catalog_revision) same ∙ revision)
          (ap
              (λ (r : ℕ × ReleaseDb). publish_end release_id call r.0 plan (
                n + 1,
                record (put_published release_id payload artifact r.0 call.now r.1) {
                  catalog_revision = some (n + 1);
                },
              ))
              same
            ∙ ap (publish_end release_id call i.0 plan) (sym counted)
            ∙ ok_value {E = WriteError} _ _ refl (answer, after) h6),
    )
