-- ===== src/Releases/Policy/Effects.antt =====
-- What each change of a policy leaves alone, and what it does to the release's own rows.

use ota_api.Jobs.Rows.{find_where, update_where}
use ota_api.Contracts.Releases.{ReleaseScope}
use ota_api.Releases.{ReleaseDb, ReleaseRow, ReleaseUser}
use ota_api.Releases.Policy.{PolicyMutation, is_release_user}
use ota_api.Releases.Policy.Mutations.{enabling, redispatching, replacement, scope_change}
use ota_api.Releases.Records.{has_release_id, is_release}
use ota_api.Prelude.{
  Bool, List, Option, Text, [], arith, false, filter, map, nat_eq, none, not, option_text_eq, refl,
  some, text_eq, true, ℕ, ◌∷◌, ◌≡◌,
}

-- The requests that change a policy.
pub data PolicyChange : Type 0 where
  replace_users : List Text → Option ℕ → PolicyChange
  change_scope : ReleaseScope → Option ℕ → PolicyChange
  set_enabled : Bool → PolicyChange
  send_again : PolicyChange

unfoldable pub mutation_of :
    (date : ℕ → Text) → (app_name release_id : Text) → ℕ → PolicyChange → PolicyMutation
unfolding replacement scope_change enabling
mutation_of date app_name release_id now (replace_users user_ids expected_revision) =
    replacement date app_name release_id user_ids expected_revision now
mutation_of date app_name release_id now (change_scope scope expected_revision) =
    scope_change release_id scope expected_revision
mutation_of date app_name release_id now (set_enabled enabled) =
    enabling app_name release_id enabled
mutation_of date app_name release_id now send_again = redispatching

abbrev pub other_releases : Text → ReleaseDb → List ReleaseRow
other_releases release_id db = filter (λ r. not (has_release_id release_id r)) db.releases

abbrev pub other_users : Text → ReleaseDb → List ReleaseUser
other_users release_id db = filter (λ u. not (is_release_user release_id u)) db.release_users

abbrev pub is_there : {A : Type 0} → Option A → Bool
is_there none = false
is_there (some a) = true

-- Only the rows of one release differ, and they are of the same releases.
pub record IsFramed (release_id : Text) (db after : ReleaseDb) : Type 0 where
  pub catalog_revision : after.catalog_revision ≡ db.catalog_revision
  pub tasks : after.tasks ≡ db.tasks
  pub audits : after.audits ≡ db.audits
  pub drafts : after.drafts ≡ db.drafts
  pub artifacts : after.artifacts ≡ db.artifacts
  pub releases : other_releases release_id after ≡ other_releases release_id db
  pub users : other_users release_id after ≡ other_users release_id db
  pub rows :
      (app_name : Text)
      → is_there (find_where (is_release app_name release_id) after.releases)
        ≡ is_there (find_where (is_release app_name release_id) db.releases)

module _ (test : ReleaseRow → Bool) (release_id : Text) (change : ReleaseRow → ReleaseRow) where
  -- `change` keeps the identity of a row
  abbrev pub KeepsIdentity : Type 0
  KeepsIdentity =
      (r : ReleaseRow) → ((change r).release_id ≡ r.release_id) × ((change r).app_name ≡ r.app_name)

  pub filter-update :
      ((r : ReleaseRow) → test r ≡ true → r.release_id ≡ release_id)
      → KeepsIdentity
      → (rs : List ReleaseRow)
      → filter (λ r. not (has_release_id release_id r)) (update_where test change rs)
        ≡ filter (λ r. not (has_release_id release_id r)) rs
  unfolding filter update_where
  filter-update own keeps [] = refl
  filter-update own keeps (r ∷ rs) = ground (
    arith,
    filter-update own keeps rs,
    own r,
    keeps r,
    text_eq.beq_iff r.release_id release_id,
    text_eq.beq_iff (change r).release_id release_id,
  )

  pub is_there-update :
      (app_name : Text)
      → KeepsIdentity
      → (rs : List ReleaseRow)
      → is_there (find_where (is_release app_name release_id) (update_where test change rs))
        ≡ is_there (find_where (is_release app_name release_id) rs)
  unfolding find_where update_where
  is_there-update app_name keeps [] = refl
  is_there-update app_name keeps (r ∷ rs) =
      ground (arith, is_there-update app_name keeps rs, keeps r)

pub own_id :
    (release_id : Text) (r : ReleaseRow)
    → has_release_id release_id r ≡ true
    → r.release_id ≡ release_id
own_id release_id r h = (text_eq.beq_iff r.release_id release_id).0 h

pub own_release :
    (app_name release_id : Text) (r : ReleaseRow)
    → is_release app_name release_id r ≡ true
    → r.release_id ≡ release_id
own_release app_name release_id r h = ground (arith, h, text_eq.beq_iff r.release_id release_id)

pub other_users-delete :
    (release_id : Text) (us : List ReleaseUser)
    → filter
        (λ u. not (is_release_user release_id u))
        (filter (λ u. not (is_release_user release_id u)) us)
      ≡ filter (λ u. not (is_release_user release_id u)) us
unfolding filter
other_users-delete release_id [] = refl
other_users-delete release_id (u ∷ us) = ground (arith, other_users-delete release_id us)

abbrev pub new_users : Text → ℕ → List Text → List ReleaseUser
new_users release_id now xs =
    map (λ user_id. record { release_id = release_id; user_id = user_id; created_at = now }) xs

pub other_users-new :
    (release_id : Text) (now : ℕ) (xs : List Text)
    → filter (λ u. not (is_release_user release_id u)) (new_users release_id now xs) ≡ []
unfolding filter
other_users-new release_id now [] = refl
other_users-new release_id now (x ∷ xs) =
    ground (arith, other_users-new release_id now xs, text_eq.beq_iff release_id release_id)
