-- ===== src/Releases/Policy/Audited.antt =====
-- The users that a change of a release's audience stores, and what its audit tells of them.

use ota_api.Releases.Policy.Applied.{action_of, counted_from_one, counted_lem, mutation-action}
use ota_api.Releases.Logged.{IsLogged, audit_rows-IsLogged, logged_parts}
use ota_api.Releases.Policy.Frames.{mutate-IsFramed}
use ota_api.Releases.Policy.Stored.{
  users_of-append, users_of-deleted, users_of-new, planned, read-whole,
}
use ota_api.Releases.Success.{
  audit_rows, details, insert_release_success_audit, ReleaseSuccessAudit,
}
use ota_api.Releases.Policy.Revisions.{policy_write-IsWritten}
use ota_api.Audience.Changes.Completeness.{IsComplete, plan_audience_change-IsComplete}
use ota_api.Releases.Policy.Mutations.{
  next_audience, normalized_for, replace_mutate, scope_mutate, scoped, set_scope, enabling,
  replacement, scope_change, noted_users, user_count_summary,
}
use ota_api.Releases.Policy.Effects.{
  PolicyChange, change_scope, replace_users, mutation_of, send_again, set_enabled,
}
use ota_api.Audience.Changes.{Part, StoredAudience, Summary}
use ota_api.Audience.Normalizing.{NormalizedReleaseAudience, is_public}
use ota_api.Contracts.Releases.{ReleaseScope, allowlist, public}
use ota_api.Releases.{
  WriteError, ReleaseDb, ReleaseRow, insert_task, AuditRow, ChangeSummary, ReleaseAction,
  TargetType, no_summary,
}
use ota_api.Releases.Policy.{
  find_where, is_release_user, plan_change, read_audience, users_of, delete_users, insert_users,
  Call, policy_end, policy_write, set_revision, success_audit, revision_of,
}
use ota_api.Releases.Records.{is_release, set_enabled_value}
use ota_api.Prelude.{
  >>=-eq-ok, List, Option, Text, [], ap, filter, if◌then◌else◌, length, nat_eq, none, not, ok,
  ok_value, option_text_eq, refl, some, subst, sym, text_eq, true, ℕ, ◌++◌, ◌+◌, ◌∙◌, ◌≡◌,
}

-- the audit of a change tells what it did to the stored users: nothing, or every difference
abbrev pub IsTold :
    (before : List Text) → Option (Summary × List Part) → (after : List Text) → Type 0
IsTold before none after = after ≡ before
IsTold before (some (summary, parts)) after =
    (old : StoredAudience) × (new : StoredAudience) × (old.user_ids ≡ before)
    × (new.user_ids ≡ after)
    × IsComplete old new summary parts

-- the users that a change leaves
abbrev pub LeavesUsers :
    (date : ℕ → Text) → Text → PolicyChange → ReleaseRow → (before after : List Text) → Type 0
LeavesUsers date app_name (replace_users user_ids e) row before after =
    (normalized : NormalizedReleaseAudience) × (normalized_for date app_name user_ids row
      ≡ ok normalized)
    × (after ≡ normalized.user_ids)
LeavesUsers date app_name (change_scope public e) row before after = after ≡ []
LeavesUsers date app_name change row before after = after ≡ before

replaced-users :
    (release_id : Text) (xs : List Text) (now : ℕ) (db : ReleaseDb)
    → users_of release_id (insert_users release_id xs now (delete_users release_id db)) ≡ xs
unfolding users_of insert_users delete_users
replaced-users release_id xs now db =
    users_of-append release_id (filter (λ u. not (is_release_user release_id u)) db.release_users) _
    ∙ rw (users_of-deleted release_id db.release_users, users_of-new release_id now xs) refl

scoped-users :
    (release_id : Text) (scope : ReleaseScope) (db : ReleaseDb)
    → users_of release_id (scoped release_id scope db)
      ≡ (if is_public scope then [] else users_of release_id db)
unfolding scoped users_of delete_users set_scope
scoped-users release_id public db = users_of-deleted release_id db.release_users
scoped-users release_id allowlist db = refl

module _ (date : ℕ → Text) (app_name release_id : Text) (now : ℕ) (row : ReleaseRow)
    (db : ReleaseDb) (m : Option (Summary × List Part) × ReleaseDb) where
  abbrev Tells : PolicyChange → Option (Summary × List Part) × ReleaseDb → Type 0
  Tells change r =
      IsTold (users_of release_id db) r.0 (users_of release_id r.1)
      × LeavesUsers date app_name change row (users_of release_id db) (users_of release_id r.1)

  replace_mutate-Tells :
      (user_ids : List Text) (e : Option ℕ)
      → replace_mutate date app_name release_id user_ids now row db ≡ ok m
      → Tells (replace_users user_ids e) m
  unfolding replace_mutate
  replace_mutate-Tells user_ids e h =
      let (n, e1, q1) = >>=-eq-ok (normalized_for date app_name user_ids row) _ {end = m} h in
      let (before, e2, q2) = >>=-eq-ok (read_audience release_id row db) _ {end = m} q1 in
      let next : StoredAudience = record before { user_ids = n.user_ids } in
      let (plan, e3, q3) = >>=-eq-ok (plan_change before next) _ {end = m} q2 in
      let p = planned before next plan e3 in
      let users = replaced-users release_id n.user_ids now db in
      subst (Tells (replace_users user_ids e)) (ok_value {E = WriteError} _ _ refl m q3) (
        (
          before,
          next,
          read-whole release_id row db before next plan e2 p,
          sym users,
          plan_audience_change-IsComplete before next plan.0 plan.1 p,
        ),
        (n, e1, users),
      )

  scope-users :
      (scope : ReleaseScope) (e : Option ℕ)
      → LeavesUsers date app_name
          (change_scope scope e)
          row
          (users_of release_id db)
          (users_of release_id (scoped release_id scope db))
  scope-users public e = scoped-users release_id public db
  scope-users allowlist e = scoped-users release_id allowlist db

  next-users :
      (scope : ReleaseScope) (before : StoredAudience)
      → before.user_ids ≡ users_of release_id db
      → (next_audience scope before).user_ids ≡ users_of release_id (scoped release_id scope db)
  next-users public before h = sym (scoped-users release_id public db)
  next-users allowlist before h = h ∙ sym (scoped-users release_id allowlist db)

  scope_mutate-Tells :
      (scope : ReleaseScope) (e : Option ℕ)
      → scope_mutate release_id scope row db ≡ ok m
      → Tells (change_scope scope e) m
  unfolding scope_mutate
  scope_mutate-Tells scope e h =
      let (before, e1, q1) = >>=-eq-ok (read_audience release_id row db) _ {end = m} h in
      let (plan, e2, q2) =
        >>=-eq-ok (plan_change before (next_audience scope before)) _ {end = m} q1 in
      let p = planned before (next_audience scope before) plan e2 in
      let whole = read-whole release_id row db before (next_audience scope before) plan e1 p in
      subst (Tells (change_scope scope e)) (ok_value {E = WriteError} _ _ refl m q2) (
        (
          before,
          next_audience scope before,
          whole,
          next-users scope before whole,
          plan_audience_change-IsComplete before (next_audience scope before) plan.0 plan.1 p,
        ),
        scope-users scope e,
      )

change-Tells :
    (date : ℕ → Text) (app_name release_id : Text) (now : ℕ) (change : PolicyChange)
    (row : ReleaseRow) (db : ReleaseDb) (m : Option (Summary × List Part) × ReleaseDb)
    → (mutation_of date app_name release_id now change).mutate row db ≡ ok m
    → Tells date app_name release_id now row db m change m
unfolding mutation_of replacement scope_change enabling users_of set_enabled_value
change-Tells date app_name release_id now (replace_users user_ids e) row db m h =
    replace_mutate-Tells date app_name release_id now row db m user_ids e h
change-Tells date app_name release_id now (change_scope scope e) row db m h =
    scope_mutate-Tells date app_name release_id now row db m scope e h
change-Tells date app_name release_id now (set_enabled enabled) row db m h =
    subst (Tells date app_name release_id now row db m (set_enabled enabled))
      (ok_value {E = WriteError} _ _ refl m h) (refl, refl)
change-Tells date app_name release_id now send_again row db m h =
    subst (Tells date app_name release_id now row db m send_again)
      (ok_value {E = WriteError} _ _ refl m h) (refl, refl)

-- What the summary of a change that is written says, with the number of users behind it.
pub summary_for : PolicyChange → ℕ → ChangeSummary
summary_for (replace_users user_ids e) users = record no_summary { user_count = some users }
summary_for (change_scope scope e) users = record no_summary { release_scope = some scope }
summary_for (set_enabled enabled) users = record no_summary { enabled = some enabled }
summary_for send_again users = record no_summary { redispatch = some true }

noted-summary :
    (date : ℕ → Text) (app_name release_id : Text) (now : ℕ) (change : PolicyChange)
    (row : ReleaseRow) (before after : List Text)
    → LeavesUsers date app_name change row before after
    → (mutation_of date app_name release_id now change).noted row
      ≡ summary_for change (length after)
unfolding mutation_of replacement scope_change enabling noted_users summary_for
noted-summary date app_name release_id now (replace_users user_ids e) row before after
      (n, normal, users) =
    rw normal (ap (λ (xs : List Text). user_count_summary (length xs)) (sym users))
noted-summary date app_name release_id now (change_scope scope e) row before after l = refl
noted-summary date app_name release_id now (set_enabled enabled) row before after l = refl
noted-summary date app_name release_id now send_again row before after l = refl

-- The success of a change as its audit is to tell it.
abbrev pub success_of :
    Text
    → Call
    → ReleaseAction
    → (revision : ℕ) → ChangeSummary
    → Option (Summary × List Part)
    → ReleaseSuccessAudit
success_of release_id call action revision summary audience = record {
  context = call.context;
  operation_id = call.operation_id;
  release_id = release_id;
  action = action;
  target_type = TargetType.release;
  task_id = some call.task_id;
  revision_before = some revision;
  revision_after = some (revision + 1);
  change_summary = summary;
  audience = audience;
  now = call.now;
}

-- what a change stores and audits of the release's users
pub record IsAudited (date : ℕ → Text) (app_name release_id : Text) (call : Call)
    (change : PolicyChange) (db after : ReleaseDb) : Type 0 where
  pub row : ReleaseRow
  pub found : find_where (is_release app_name release_id) db.releases ≡ some row
  pub audience : Option (Summary × List Part)
  pub rows : List AuditRow
  pub audits : after.audits ≡ db.audits ++ rows
  pub logged :
      IsLogged
        (success_of release_id call
          (action_of change)
          (counted_from_one row.policy_revision)
          (summary_for change (length (users_of release_id after)))
          audience)
        1
        (logged_parts audience)
        rows
  pub told : IsTold (users_of release_id db) audience (users_of release_id after)
  pub users :
      LeavesUsers date app_name change row (users_of release_id db) (users_of release_id after)

-- the success as the code tells it
success-as :
    (date : ℕ → Text) (app_name release_id : Text) (call : Call) (change : PolicyChange)
    (row : ReleaseRow) (audience : Option (Summary × List Part)) (before after : List Text)
    → LeavesUsers date app_name change row before after
    → success_audit release_id call
        (mutation_of date app_name release_id call.now change)
        row
        audience
      ≡ success_of release_id call
          (action_of change)
          (counted_from_one row.policy_revision)
          (summary_for change (length after))
          audience
unfolding success_audit
success-as date app_name release_id call change row audience before after l =
    let mutation = mutation_of date app_name release_id call.now change in
    ap (λ action. success_of release_id call action (revision_of row) (mutation.noted row) audience)
      (mutation-action date app_name release_id call.now change)
    ∙ ap
        (λ revision.
          success_of release_id call (action_of change) revision (mutation.noted row) audience)
        (counted_lem row)
    ∙ ap
        (λ summary.
          success_of release_id call (action_of change) (counted_from_one row.policy_revision)
            summary audience)
        (noted-summary date app_name release_id call.now change row before after l)

pub policy_write-IsAudited :
    (date : ℕ → Text) (app_name release_id : Text) (call : Call) (change : PolicyChange)
    (db after : ReleaseDb) (revision : ℕ)
    → policy_write app_name release_id call
        (mutation_of date app_name release_id call.now change)
        db
      ≡ ok (revision, after)
    → IsAudited date app_name release_id call change db after
unfolding policy_end insert_task insert_release_success_audit set_revision users_of
policy_write-IsAudited date app_name release_id call change db after revision h =
    let mutation = mutation_of date app_name release_id call.now change in
    let w = policy_write-IsWritten app_name release_id call mutation db after revision h in
    let t = change-Tells date app_name release_id call.now change w.row db w.mutated w.mutates in
    let f = mutate-IsFramed date app_name release_id call.now change w.row db w.mutated w.mutates in
    let rows : List AuditRow =
      audit_rows (success_audit release_id call mutation w.row w.mutated.0) 1
        (details w.mutated.0) in
    subst (λ (r : ℕ × ReleaseDb). IsAudited date app_name release_id call change db r.1) w.ended
      (record {
        row = w.row;
        found = w.found;
        audience = w.mutated.0;
        rows = rows;
        audits = ap (λ l. l ++ rows) f.audits;
        logged =
            subst (λ x. IsLogged x 1 (logged_parts w.mutated.0) rows)
              (success-as date app_name release_id call change w.row w.mutated.0
                (users_of release_id db) (users_of release_id w.mutated.1) t.1)
              (audit_rows-IsLogged (success_audit release_id call mutation w.row w.mutated.0)
                w.mutated.0);
        told = t.0;
        users = t.1;
      })
