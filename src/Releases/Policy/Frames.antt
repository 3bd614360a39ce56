-- ===== src/Releases/Policy/Frames.antt =====
-- Each statement, and each mutation, keeps everything but the rows of its release.
use mathlib.Core.List.{append-nil}
use ota_api.Jobs.Rows.{update_where}
use ota_api.Audience.Changes.{Part, Summary}
use ota_api.Contracts.Releases.{ReleaseScope, allowlist, public}
use ota_api.Releases.{ReleaseDb, ReleaseRow, ReleaseUser}
use ota_api.Releases.Policy.{
  delete_users, insert_users, is_release_user, plan_change, read_audience, set_revision,
}
use ota_api.Releases.Policy.Mutations.{
  enabling, next_audience, normalized_for, replace_mutate, replacement, scope_change, scope_mutate,
  scoped, set_scope,
}
use ota_api.Releases.Records.{flag_value, has_release_id, is_release, scope_text, set_enabled_value}
use ota_api.Releases.Policy.Effects.{
  IsFramed, KeepsIdentity, PolicyChange, change_scope, filter-update, is_there-update, mutation_of,
  new_users, other_users, other_users-delete, other_users-new, own_id, own_release, replace_users,
  send_again, set_enabled,
}
use ota_api.Prelude.{
  >>=-eq-ok, Bool, List, Option, Text, ap, filter, filter-append, nat_eq, not, ok, option_text_eq,
  refl, subst, text_eq, true, ℕ, ◌++◌, ◌∙◌, ◌≡◌,
}

refl-IsFramed : (release_id : Text) (db : ReleaseDb) → IsFramed release_id db db
refl-IsFramed release_id db = record {
  catalog_revision = refl;
  tasks = refl;
  audits = refl;
  drafts = refl;
  artifacts = refl;
  releases = refl;
  users = refl;
  rows = λ app_name. refl;
}

trans-IsFramed :
    (release_id : Text) (db mid after : ReleaseDb)
    → IsFramed release_id db mid
    → IsFramed release_id mid after
    → IsFramed release_id db after
trans-IsFramed release_id db mid after f g = record {
  catalog_revision = g.catalog_revision ∙ f.catalog_revision;
  tasks = g.tasks ∙ f.tasks;
  audits = g.audits ∙ f.audits;
  drafts = g.drafts ∙ f.drafts;
  artifacts = g.artifacts ∙ f.artifacts;
  releases = g.releases ∙ f.releases;
  users = g.users ∙ f.users;
  rows = λ app_name. g.rows app_name ∙ f.rows app_name;
}

-- a change of rows of the release
update-IsFramed :
    (release_id : Text) (test : ReleaseRow → Bool) (change : ReleaseRow → ReleaseRow)
    (db : ReleaseDb)
    → ((r : ReleaseRow) → test r ≡ true → r.release_id ≡ release_id)
    → KeepsIdentity test release_id change
    → IsFramed release_id db (record db { releases = update_where test change db.releases })
update-IsFramed release_id test change db own keeps = record {
  catalog_revision = refl;
  tasks = refl;
  audits = refl;
  drafts = refl;
  artifacts = refl;
  releases = filter-update test release_id change own keeps db.releases;
  users = refl;
  rows = λ app_name. is_there-update test release_id change app_name keeps db.releases;
}

pub set_revision-IsFramed :
    (release_id : Text) (revision now : ℕ) (db : ReleaseDb)
    → IsFramed release_id db (set_revision release_id revision now db)
unfolding set_revision
set_revision-IsFramed release_id revision now db =
    update-IsFramed release_id (has_release_id release_id)
      (λ r. record r { policy_revision = revision; updated_at = now }) db (own_id release_id)
      (λ r. (refl, refl))

set_scope-IsFramed :
    (release_id : Text) (scope : ReleaseScope) (db : ReleaseDb)
    → IsFramed release_id db (set_scope release_id scope db)
unfolding set_scope
set_scope-IsFramed release_id scope db =
    update-IsFramed release_id (has_release_id release_id)
      (λ r. record r { release_scope = scope_text scope }) db (own_id release_id)
      (λ r. (refl, refl))

set_enabled-IsFramed :
    (app_name release_id : Text) (enabled : Bool) (db : ReleaseDb)
    → IsFramed release_id db (set_enabled_value app_name release_id enabled db)
unfolding set_enabled_value
set_enabled-IsFramed app_name release_id enabled db =
    update-IsFramed release_id (is_release app_name release_id)
      (λ r. record r { is_enabled = flag_value enabled }) db (own_release app_name release_id)
      (λ r. (refl, refl))

users-IsFramed :
    (release_id : Text) (db : ReleaseDb) (users : List ReleaseUser)
    → filter (λ u. not (is_release_user release_id u)) users ≡ other_users release_id db
    → IsFramed release_id db (record db { release_users = users })
users-IsFramed release_id db users same = record {
  catalog_revision = refl;
  tasks = refl;
  audits = refl;
  drafts = refl;
  artifacts = refl;
  releases = refl;
  users = same;
  rows = λ app_name. refl;
}

delete_users-IsFramed :
    (release_id : Text) (db : ReleaseDb) → IsFramed release_id db (delete_users release_id db)
unfolding delete_users
delete_users-IsFramed release_id db =
    users-IsFramed release_id db _ (other_users-delete release_id db.release_users)

insert_users-IsFramed :
    (release_id : Text) (xs : List Text) (now : ℕ) (db : ReleaseDb)
    → IsFramed release_id db (insert_users release_id xs now db)
unfolding insert_users
insert_users-IsFramed release_id xs now db = users-IsFramed release_id db _ (
    filter-append (λ u. not (is_release_user release_id u)) db.release_users
      (new_users release_id now xs)
    ∙ ap (λ l. other_users release_id db ++ l) (other_users-new release_id now xs)
    ∙ append-nil (other_users release_id db))

replace_mutate-IsFramed :
    (date : ℕ → Text) (app_name release_id : Text) (user_ids : List Text) (now : ℕ)
    (row : ReleaseRow) (db : ReleaseDb) (m : Option (Summary × List Part) × ReleaseDb)
    → replace_mutate date app_name release_id user_ids now row db ≡ ok m
    → IsFramed release_id db m.1
unfolding replace_mutate
replace_mutate-IsFramed date app_name release_id user_ids now row db m h =
    let (n, e, q) = >>=-eq-ok (normalized_for date app_name user_ids row) _ {end = m} h in
    let (before, e2, q2) = >>=-eq-ok (read_audience release_id row db) _ {end = m} q in
    let (audience, e3, q3) =
      >>=-eq-ok (plan_change before (record before { user_ids = n.user_ids })) _ {end = m} q2 in
    let same : insert_users release_id n.user_ids now (delete_users release_id db) ≡ m.1 = cc q3 in
    subst (IsFramed release_id db) same (
      trans-IsFramed release_id db (delete_users release_id db) _
        (delete_users-IsFramed release_id db)
        (insert_users-IsFramed release_id n.user_ids now (delete_users release_id db)))

scoped-IsFramed :
    (release_id : Text) (scope : ReleaseScope) (db : ReleaseDb)
    → IsFramed release_id db (scoped release_id scope db)
unfolding scoped
scoped-IsFramed release_id public db =
    trans-IsFramed release_id db (set_scope release_id public db) _
      (set_scope-IsFramed release_id public db)
      (delete_users-IsFramed release_id (set_scope release_id public db))
scoped-IsFramed release_id allowlist db = set_scope-IsFramed release_id allowlist db

scope_mutate-IsFramed :
    (release_id : Text) (scope : ReleaseScope) (row : ReleaseRow) (db : ReleaseDb)
    (m : Option (Summary × List Part) × ReleaseDb)
    → scope_mutate release_id scope row db ≡ ok m
    → IsFramed release_id db m.1
unfolding scope_mutate
scope_mutate-IsFramed release_id scope row db m h =
    let (before, e, q) = >>=-eq-ok (read_audience release_id row db) _ {end = m} h in
    let (audience, e2, q2) =
      >>=-eq-ok (plan_change before (next_audience scope before)) _ {end = m} q in
    let same : scoped release_id scope db ≡ m.1 = cc q2 in
    subst (IsFramed release_id db) same (scoped-IsFramed release_id scope db)

pub mutate-IsFramed :
    (date : ℕ → Text) (app_name release_id : Text) (now : ℕ) (change : PolicyChange)
    (row : ReleaseRow) (db : ReleaseDb) (m : Option (Summary × List Part) × ReleaseDb)
    → (mutation_of date app_name release_id now change).mutate row db ≡ ok m
    → IsFramed release_id db m.1
unfolding mutation_of replacement scope_change enabling
mutate-IsFramed date app_name release_id now (replace_users user_ids e) row db m h =
    replace_mutate-IsFramed date app_name release_id user_ids now row db m h
mutate-IsFramed date app_name release_id now (change_scope scope e) row db m h =
    scope_mutate-IsFramed release_id scope row db m h
mutate-IsFramed date app_name release_id now (set_enabled enabled) row db m h =
    let same : set_enabled_value app_name release_id enabled db ≡ m.1 = cc h in
    subst (IsFramed release_id db) same (set_enabled-IsFramed app_name release_id enabled db)
mutate-IsFramed date app_name release_id now send_again row db m h =
    let same : db ≡ m.1 = cc h in subst (IsFramed release_id db) same (refl-IsFramed release_id db)
