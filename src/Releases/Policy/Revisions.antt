-- ===== src/Releases/Policy/Revisions.antt =====
-- The revisions of a release under the changes of its policy.
use ota_api.Jobs.Worker.{max_safe_integer}
use ota_api.Releases.Policy.Frames.{mutate-IsFramed, set_revision-IsFramed}
use ota_api.Jobs.Rows.{find_where, update_where}
use ota_api.Audience.Changes.{Part, Summary}
use ota_api.Releases.{
  ReleaseDb, ReleaseRow, conflict, increment_catalog_revision, increment_revision, insert_task,
}
use ota_api.Releases.Policy.{
  Call, PolicyMutation, expects, lock_release, locked_release, policy_write, revision_of,
  set_revision, success_audit, policy_end,
}
use ota_api.Releases.Policy.Effects.{
  PolicyChange, IsFramed, KeepsIdentity, is_there, other_releases, other_users, mutation_of,
}
use ota_api.Releases.Records.{has_release_id, is_release}
use ota_api.Releases.Success.{insert_release_success_audit}
use ota_api.Writes.{other_error, WriteError}
use ota_api.Prelude.{
  >>=-eq-ok, Bool-cases, List, Option, Option-cases, Text, [], ap, arith, err, false, inl, inr, leb,
  nat_eq, none, ok, ok_value, option_text_eq, refl, require, require-eq-ok, some, subst, sym,
  text_eq, true, ℕ, ◌+◌, ◌∙◌, ◌∷◌, ◌≡◌,
}

-- The row of a release under a change of its rows.
pub find-update :
    (app_name release_id : Text) (change : ReleaseRow → ReleaseRow)
    → KeepsIdentity (has_release_id release_id) release_id change
    → (rs : List ReleaseRow) (row : ReleaseRow)
    → find_where (is_release app_name release_id) rs ≡ some row
    → find_where
        (is_release app_name release_id)
        (update_where (has_release_id release_id) change rs)
      ≡ some (change row)
unfolding find_where update_where
find-update app_name release_id change keeps [] row h = absurd (cc h)
find-update app_name release_id change keeps (r ∷ rs) row h =
    elim (Bool-cases (is_release app_name release_id r)) [
      | inl found ↦ ground (arith, found, h, keeps r)
      | inr apart ↦
          ground (arith, apart, h, keeps r, find-update app_name release_id change keeps rs row)
    ]

pub locked-release_from :
    (o : Option ReleaseRow) (row : ReleaseRow) → locked_release o ≡ ok row → o ≡ some row
unfolding locked_release
locked-release_from none row h = absurd (cc h)
locked-release_from (some r) row h = cc h

is_there-some : {A : Type 0} (o : Option A) → is_there o ≡ true → (a : A) × (o ≡ some a)
is_there-some none h = absurd (cc h)
is_there-some (some a) h = (a, refl)

pub increment-Counts :
    (db : ReleaseDb) (c : ℕ × ReleaseDb)
    → increment_catalog_revision db ≡ ok c
    → (n : ℕ) × (db.catalog_revision ≡ some n)
      × (c ≡ (n + 1, record db { catalog_revision = some (n + 1) }))
unfolding increment_catalog_revision increment_revision
increment-Counts db c h = elim (Option-cases db.catalog_revision) [
  | inl missing ↦ absurd (cc (subst (λ o. increment_revision o db ≡ ok c) missing h))
  | inr (n, e) ↦
      let (u, p, q) =
        >>=-eq-ok (require (leb (n + 1) max_safe_integer) other_error) _ {end = c}
          (subst (λ o. increment_revision o db ≡ ok c) e h) in
      (n, e, cc q)
]

-- the steps of a write that succeeds
pub record IsWritten (app_name release_id : Text) (call : Call) (mutation : PolicyMutation)
    (db : ReleaseDb) (revision : ℕ) (after : ReleaseDb) : Type 0 where
  pub row : ReleaseRow
  pub mutated : Option (Summary × List Part) × ReleaseDb
  pub counted : ℕ
  pub found : find_where (is_release app_name release_id) db.releases ≡ some row
  pub expected : expects mutation.expected_revision (revision_of row) ≡ true
  pub mutates : mutation.mutate row db ≡ ok mutated
  pub catalog : mutated.1.catalog_revision ≡ some counted
  pub ended :
      policy_end release_id call mutation row mutated.0 (
        counted + 1,
        record (set_revision release_id (revision_of row + 1) call.now mutated.1) {
          catalog_revision = some (counted + 1);
        },
      )
      ≡ (revision, after)

pub policy_write-IsWritten :
    (app_name release_id : Text) (call : Call) (mutation : PolicyMutation) (db after : ReleaseDb)
    (revision : ℕ)
    → policy_write app_name release_id call mutation db ≡ ok (revision, after)
    → IsWritten app_name release_id call mutation db revision after
unfolding policy_write lock_release set_revision
policy_write-IsWritten app_name release_id call mutation db after revision h =
    let (row, locked, h1) =
      >>=-eq-ok (lock_release app_name release_id db) _ {end = (revision, after)} h in
    let (u, expected, h2) =
      >>=-eq-ok (require (expects mutation.expected_revision (revision_of row)) conflict) _
        {end = (revision, after)} h1 in
    let (m, mutates, h3) = >>=-eq-ok (mutation.mutate row db) _ {end = (revision, after)} h2 in
    let (c, counts, h4) =
      >>=-eq-ok
        (increment_catalog_revision (set_revision release_id (revision_of row + 1) call.now m.1)) _
        {end = (revision, after)} h3 in
    let (n, e, p) =
      increment-Counts (set_revision release_id (revision_of row + 1) call.now m.1) c counts in
    record {
      row = row;
      mutated = m;
      counted = n;
      found =
          locked-release_from (find_where (is_release app_name release_id) db.releases) row locked;
      expected = require-eq-ok _ conflict u expected;
      mutates = mutates;
      catalog = e;
      ended =
          ap (policy_end release_id call mutation row m.0) (sym p)
          ∙ ok_value {E = WriteError} _ _ refl (revision, after) h4;
    }

-- What every change leaves: the release one revision on, and the tables that it does not touch.
pub record IsStepped (app_name release_id : Text) (call : Call) (mutation : PolicyMutation)
    (db : ReleaseDb) (revision : ℕ) (after : ReleaseDb) : Type 0 where
  pub row : ReleaseRow
  pub found : find_where (is_release app_name release_id) db.releases ≡ some row
  pub expected : expects mutation.expected_revision (revision_of row) ≡ true
  pub counted : revision ≡ revision_of row + 1
  pub stored :
      (changed : ReleaseRow) × (find_where (is_release app_name release_id) after.releases
        ≡ some changed)
      × (changed.policy_revision ≡ revision)
  pub releases : other_releases release_id after ≡ other_releases release_id db
  pub users : other_users release_id after ≡ other_users release_id db
  pub drafts : after.drafts ≡ db.drafts
  pub artifacts : after.artifacts ≡ db.artifacts

module _ (app_name release_id : Text) (call : Call) (mutation : PolicyMutation)
    (frames : (row : ReleaseRow) (db : ReleaseDb) (m : Option (Summary × List Part) × ReleaseDb)
      → mutation.mutate row db ≡ ok m
      → IsFramed release_id db m.1) where
  applied :
      (db : ReleaseDb) (row : ReleaseRow) (m : Option (Summary × List Part) × ReleaseDb) (n : ℕ)
      → find_where (is_release app_name release_id) db.releases ≡ some row
      → expects mutation.expected_revision (revision_of row) ≡ true
      → IsFramed release_id db m.1
      → m.1.catalog_revision ≡ some n
      → let end = policy_end release_id call mutation row m.0 (
        n + 1,
        record (set_revision release_id (revision_of row + 1) call.now m.1) {
          catalog_revision = some (n + 1);
        },
      ) in
        IsStepped app_name release_id call mutation db end.0 end.1
  unfolding policy_end insert_release_success_audit insert_task set_revision success_audit
  applied db row m n found expected f counted =
      let g = set_revision-IsFramed release_id (revision_of row + 1) call.now m.1 in
      let (changed, there) =
        is_there-some (find_where (is_release app_name release_id) m.1.releases)
          (f.rows app_name ∙ ap is_there found) in
      record {
        row = row;
        found = found;
        expected = expected;
        counted = refl;
        stored = (
          _,
          find-update app_name release_id
              (λ r. record r { policy_revision = revision_of row + 1; updated_at = call.now })
              (λ r. (refl, refl)) m.1.releases changed there,
          refl,
        );
        releases = g.releases ∙ f.releases;
        users = f.users;
        drafts = f.drafts;
        artifacts = f.artifacts;
      }

  policy_write-IsStepped :
      (db after : ReleaseDb) (revision : ℕ)
      → policy_write app_name release_id call mutation db ≡ ok (revision, after)
      → IsStepped app_name release_id call mutation db revision after
  policy_write-IsStepped db after revision h =
      let w = policy_write-IsWritten app_name release_id call mutation db after revision h in
      subst (λ (r : ℕ × ReleaseDb). IsStepped app_name release_id call mutation db r.0 r.1) w.ended
        (applied db w.row w.mutated w.counted w.found w.expected
          (frames w.row db w.mutated w.mutates) w.catalog)

pub change-IsStepped :
    (date : ℕ → Text) (app_name release_id : Text) (call : Call) (change : PolicyChange)
    (db after : ReleaseDb) (revision : ℕ)
    → policy_write app_name release_id call
        (mutation_of date app_name release_id call.now change)
        db
      ≡ ok (revision, after)
    → IsStepped app_name release_id call
        (mutation_of date app_name release_id call.now change)
        db
        revision
        after
change-IsStepped date app_name release_id call change db after revision h =
    policy_write-IsStepped app_name release_id call
      (mutation_of date app_name release_id call.now change)
      (mutate-IsFramed date app_name release_id call.now change) db after revision h

changed-conflicts :
    (app_name release_id : Text) (call : Call) (mutation : PolicyMutation) (db : ReleaseDb)
    (row : ReleaseRow) (expected : ℕ)
    → find_where (is_release app_name release_id) db.releases ≡ some row
    → mutation.expected_revision ≡ some expected
    → row.policy_revision ≡ expected + 1
    → policy_write app_name release_id call mutation db ≡ err conflict
unfolding policy_write lock_release locked_release
changed-conflicts app_name release_id call mutation db row expected found e moved =
    let stale : expects mutation.expected_revision (revision_of row) ≡ false =
      ground (arith, e, moved) in
    ground (arith, found, stale)

-- Of two changes that name the same revision of a release, the second to be written fails with a
-- conflict, whatever both change: no change is lost.
pub policy_write-once :
    (date : ℕ → Text) (app_name release_id : Text) (first second : Call)
    (change other : PolicyChange) (expected revision : ℕ) (db after : ReleaseDb)
    → (mutation_of date app_name release_id first.now change).expected_revision ≡ some expected
    → (mutation_of date app_name release_id second.now other).expected_revision ≡ some expected
    → policy_write app_name release_id first
        (mutation_of date app_name release_id first.now change)
        db
      ≡ ok (revision, after)
    → policy_write app_name release_id second
        (mutation_of date app_name release_id second.now other)
        after
      ≡ err conflict
policy_write-once date app_name release_id first second change other expected revision db after e f
      h =
    let a = change-IsStepped date app_name release_id first change db after revision h in
    let (changed, there, moved) = a.stored in
    let same : expects (some expected) (revision_of a.row) ≡ true =
      subst (λ o. expects o (revision_of a.row) ≡ true) e a.expected in
    changed-conflicts app_name release_id second
      (mutation_of date app_name release_id second.now other) after changed expected there f
      (ground (arith, moved, a.counted, same))
