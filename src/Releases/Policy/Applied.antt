-- ===== src/Releases/Policy/Applied.antt =====
-- What each change of a release's policy is to leave in the release's row, the catalog and the tasks.
use ota_api.Audience.Changes.{Part, Summary}
use ota_api.Contracts.Releases.{ReleaseScope, allowlist, public}
use ota_api.Jobs.Rows.{find_where, update_where}
use ota_api.Releases.{
  WriteError, PublishTask, ReleaseAction, ReleaseDb, ReleaseRow, audience_changed, disable, enable,
  insert_task, new_task, redispatch,
}
use ota_api.Releases.Logged.{IsQueued, new_task-IsQueued}
use ota_api.Releases.Policy.{
  Call, delete_users, expects, insert_users, plan_change, policy_end, policy_write, read_audience,
  revision_of, set_revision,
}
use ota_api.Releases.Policy.Effects.{
  KeepsIdentity, PolicyChange, change_scope, mutation_of, other_releases, other_users,
  replace_users, send_again, set_enabled,
}
use ota_api.Releases.Policy.Frames.{mutate-IsFramed, set_revision-IsFramed}
use ota_api.Releases.Policy.Mutations.{
  enabling, next_audience, normalized_for, replace_mutate, replacement, scope_change, scope_mutate,
  scoped, set_scope,
}
use ota_api.Releases.Policy.Revisions.{find-update, policy_write-IsWritten}
use ota_api.Releases.Records.{is_release, set_enabled_value}
use ota_api.Releases.Success.{insert_release_success_audit}
use ota_api.Prelude.{
  >>=-eq-ok, Bool, Bool-cases, List, Option, Text, [], ap, arith, false, if◌then◌else◌, inl, inr,
  nat_eq, none, ok, ok_value, option_text_eq, refl, some, subst, suc, sym, text, text_eq, true,
  zero, ℕ, ◌++◌, ◌+◌, ◌==◌, ◌∙◌, ◌∷◌, ◌≡◌,
}

-- The revision that a request on the policy names.
pub requested : PolicyChange → Option ℕ
requested (replace_users user_ids expected) = expected
requested (change_scope scope expected) = expected
requested (set_enabled enabled) = none
requested send_again = none

-- A stored revision, which counts from one.
pub counted_from_one : ℕ → ℕ
counted_from_one zero = 1
counted_from_one (suc n) = suc n

pub action_of : PolicyChange → ReleaseAction
action_of (replace_users user_ids expected) = audience_changed
action_of (change_scope scope expected) = audience_changed
action_of (set_enabled true) = enable
action_of (set_enabled false) = disable
action_of send_again = redispatch

-- What the change itself writes into the release's row.
pub changed_row : PolicyChange → ReleaseRow → ReleaseRow
changed_row (change_scope public expected) row = record row { release_scope = text "public" }
changed_row (change_scope allowlist expected) row = record row { release_scope = text "allowlist" }
changed_row (set_enabled true) row = record row { is_enabled = 1 }
changed_row (set_enabled false) row = record row { is_enabled = 0 }
changed_row (replace_users user_ids expected) row = row
changed_row send_again row = row

counted_value : (n : ℕ) → (if n == 0 then 1 else n) ≡ counted_from_one n
unfolding counted_from_one
counted_value zero = refl
counted_value (suc n) = ground arith

pub counted_lem : (row : ReleaseRow) → revision_of row ≡ counted_from_one row.policy_revision
counted_lem row = counted_value row.policy_revision

find-own :
    (app_name release_id : Text) (change : ReleaseRow → ReleaseRow)
    → KeepsIdentity (is_release app_name release_id) release_id change
    → (rs : List ReleaseRow) (row : ReleaseRow)
    → find_where (is_release app_name release_id) rs ≡ some row
    → find_where
        (is_release app_name release_id)
        (update_where (is_release app_name release_id) change rs)
      ≡ some (change row)
unfolding find_where update_where
find-own app_name release_id change keeps [] row h = absurd (cc h)
find-own app_name release_id change keeps (r ∷ rs) row h =
    elim (Bool-cases (is_release app_name release_id r)) [
      | inl found ↦ ground (arith, found, h, keeps r)
      | inr apart ↦
          ground (arith, apart, h, keeps r, find-own app_name release_id change keeps rs row)
    ]

module _ (date : ℕ → Text) (app_name release_id : Text) (now : ℕ) (row : ReleaseRow)
    (db : ReleaseDb) (m : Option (Summary × List Part) × ReleaseDb)
    (found : find_where (is_release app_name release_id) db.releases ≡ some row) where
  abbrev Has : ReleaseRow → ReleaseDb → Type 0
  Has r after = find_where (is_release app_name release_id) after.releases ≡ some r

  replaced-row :
      (user_ids : List Text)
      → replace_mutate date app_name release_id user_ids now row db ≡ ok m
      → Has row m.1
  unfolding replace_mutate insert_users delete_users
  replaced-row user_ids h =
      let (n, _, q1) = >>=-eq-ok (normalized_for date app_name user_ids row) _ {end = m} h in
      let (before, _, q2) = >>=-eq-ok (read_audience release_id row db) _ {end = m} q1 in
      let (plan, _, q3) =
        >>=-eq-ok (plan_change before (record before { user_ids = n.user_ids })) _ {end = m} q2 in
      subst (λ (r : Option (Summary × List Part) × ReleaseDb). Has row r.1)
        (ok_value {E = WriteError} _ _ refl m q3) found

  scoped-row :
      (scope : ReleaseScope) (e : Option ℕ)
      → Has (changed_row (change_scope scope e) row) (scoped release_id scope db)
  unfolding scoped set_scope delete_users changed_row
  scoped-row public e =
      find-update app_name release_id (λ r. record r { release_scope = text "public" })
        (λ r. (refl, refl)) db.releases row found
  scoped-row allowlist e =
      find-update app_name release_id (λ r. record r { release_scope = text "allowlist" })
        (λ r. (refl, refl)) db.releases row found

  scope_mutate-row :
      (scope : ReleaseScope) (e : Option ℕ)
      → scope_mutate release_id scope row db ≡ ok m
      → Has (changed_row (change_scope scope e) row) m.1
  unfolding scope_mutate
  scope_mutate-row scope e h =
      let (before, _, q1) = >>=-eq-ok (read_audience release_id row db) _ {end = m} h in
      let (plan, _, q2) =
        >>=-eq-ok (plan_change before (next_audience scope before)) _ {end = m} q1 in
      subst
        (λ (r : Option (Summary × List Part) × ReleaseDb).
          Has (changed_row (change_scope scope e) row) r.1)
        (ok_value {E = WriteError} _ _ refl m q2) (scoped-row scope e)

  enabled-row :
      (enabled : Bool)
      → Has
          (changed_row (set_enabled enabled) row)
          (set_enabled_value app_name release_id enabled db)
  unfolding set_enabled_value changed_row
  enabled-row true =
      find-own app_name release_id (λ r. record r { is_enabled = 1 }) (λ r. (refl, refl))
        db.releases row found
  enabled-row false =
      find-own app_name release_id (λ r. record r { is_enabled = 0 }) (λ r. (refl, refl))
        db.releases row found

  mutated-row :
      (change : PolicyChange)
      → (mutation_of date app_name release_id now change).mutate row db ≡ ok m
      → Has (changed_row change row) m.1
  unfolding mutation_of replacement scope_change enabling changed_row
  mutated-row (replace_users user_ids e) h = replaced-row user_ids h
  mutated-row (change_scope scope e) h = scope_mutate-row scope e h
  mutated-row (set_enabled enabled) h =
      subst
        (λ (r : Option (Summary × List Part) × ReleaseDb).
          Has (changed_row (set_enabled enabled) row) r.1)
        (ok_value {E = WriteError} _ _ refl m h) (enabled-row enabled)
  mutated-row send_again h =
      subst (λ (r : Option (Summary × List Part) × ReleaseDb). Has row r.1)
        (ok_value {E = WriteError} _ _ refl m h) found

module _ (date : ℕ → Text) (app_name release_id : Text) (now : ℕ) where
  pub mutation-action :
      (change : PolicyChange)
      → (mutation_of date app_name release_id now change).action ≡ action_of change
  unfolding mutation_of replacement scope_change enabling action_of
  mutation-action (replace_users user_ids e) = refl
  mutation-action (change_scope scope e) = refl
  mutation-action (set_enabled true) = refl
  mutation-action (set_enabled false) = refl
  mutation-action send_again = refl

  mutation-expected :
      (change : PolicyChange)
      → (mutation_of date app_name release_id now change).expected_revision ≡ requested change
  unfolding mutation_of replacement scope_change enabling requested
  mutation-expected (replace_users user_ids e) = refl
  mutation-expected (change_scope scope e) = refl
  mutation-expected (set_enabled enabled) = refl
  mutation-expected send_again = refl

expected-revision :
    (o : Option ℕ) (revision n : ℕ) → expects o revision ≡ true → o ≡ some n → n ≡ revision
expected-revision none revision n h e = absurd (cc e)
expected-revision (some expected) revision n h e = ground (arith, h, e)

-- The tables behind a change of a release's policy.
pub record IsApplied (app_name release_id : Text) (call : Call) (change : PolicyChange)
    (db : ReleaseDb) (revision : ℕ) (after : ReleaseDb) : Type 0 where
  pub row : ReleaseRow
  pub found : find_where (is_release app_name release_id) db.releases ≡ some row
  pub counted : revision ≡ counted_from_one row.policy_revision + 1
  pub expected : (n : ℕ) → requested change ≡ some n → revision ≡ n + 1
  pub stored :
      find_where (is_release app_name release_id) after.releases
      ≡ some (record (changed_row change row) { policy_revision = revision; updated_at = call.now })
  pub catalog :
      (n : ℕ) × (t : PublishTask) × (db.catalog_revision ≡ some n)
      × (after.catalog_revision ≡ some (n + 1))
      × (after.tasks ≡ db.tasks ++ t ∷ [])
      × IsQueued call.task_id call.operation_id release_id (action_of change) (n + 1) call.now t
  pub releases : other_releases release_id after ≡ other_releases release_id db
  pub users : other_users release_id after ≡ other_users release_id db
  pub drafts : after.drafts ≡ db.drafts
  pub artifacts : after.artifacts ≡ db.artifacts

-- A change of a release's policy that is written finds the release, at the revision that the request
-- names, if it names one, and returns the revision behind. The release's row is then the one found,
-- with the new scope or switch, if the change has one, at that revision; the application's catalog is one
-- revision on; there is one more task, pending, unleased and untried, with five attempts, due at once,
-- for that catalog revision and the change's action; and the other releases, their users, the drafts
-- and the artifacts are as before.
pub change-IsApplied :
    (date : ℕ → Text) (app_name release_id : Text) (call : Call) (change : PolicyChange)
    (db after : ReleaseDb) (revision : ℕ)
    → policy_write app_name release_id call
        (mutation_of date app_name release_id call.now change)
        db
      ≡ ok (revision, after)
    → IsApplied app_name release_id call change db revision after
unfolding policy_end insert_task insert_release_success_audit set_revision
change-IsApplied date app_name release_id call change db after revision h =
    let mutation = mutation_of date app_name release_id call.now change in
    let w = policy_write-IsWritten app_name release_id call mutation db after revision h in
    let f = mutate-IsFramed date app_name release_id call.now change w.row db w.mutated w.mutates in
    let g = set_revision-IsFramed release_id (revision_of w.row + 1) call.now w.mutated.1 in
    let t : PublishTask =
      new_task call.task_id call.operation_id release_id mutation.action (w.counted + 1) call.now in
    subst (λ (r : ℕ × ReleaseDb). IsApplied app_name release_id call change db r.0 r.1) w.ended
      (record {
        row = w.row;
        found = w.found;
        counted = ap (λ n. n + 1) (counted_lem w.row);
        expected = λ n e.
            ap (λ k. k + 1)
              (sym (
                expected-revision mutation.expected_revision (revision_of w.row) n w.expected
                  (mutation-expected date app_name release_id call.now change ∙ e)));
        stored =
            find-update app_name release_id
              (λ r. record r { policy_revision = revision_of w.row + 1; updated_at = call.now })
              (λ r. (refl, refl)) w.mutated.1.releases (changed_row change w.row)
              (mutated-row date app_name release_id call.now w.row db w.mutated w.found change
                w.mutates);
        catalog = (
          w.counted,
          t,
          sym f.catalog_revision ∙ w.catalog,
          refl,
          ap (λ l. l ++ t ∷ []) f.tasks,
          subst
              (λ action.
                IsQueued call.task_id call.operation_id release_id action (w.counted + 1) call.now
                  t)
              (mutation-action date app_name release_id call.now change)
              (new_task-IsQueued call.task_id call.operation_id release_id mutation.action
                (w.counted + 1) call.now),
        );
        releases = g.releases ∙ f.releases;
        users = f.users;
        drafts = f.drafts;
        artifacts = f.artifacts;
      })
