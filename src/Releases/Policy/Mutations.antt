-- ===== src/Releases/Policy/Mutations.antt =====
-- src/releases/release-management.service.ts: what each change of a policy does.
use ota_api.Audience.Changes.{Part, Summary, StoredAudience}
use ota_api.Audience.Normalizing.{NormalizedReleaseAudience, is_public, normalize_release_audience}
use ota_api.Contracts.Releases.{ReleaseScope, allowlist}
use ota_api.Jobs.Rows.{update_where}
use ota_api.Releases.{
  ChangeSummary, ReleaseDb, ReleaseRow, audience_changed, bad_request, disable, enable, no_summary,
  redispatch,
}
use ota_api.Releases.Policy.{PolicyMutation, delete_users, insert_users, plan_change, read_audience}
use ota_api.Releases.Records.{
  has_release_id, map_stored_release_record, scope_text, set_enabled_value,
}
use ota_api.Writes.{WriteError}
use ota_api.Prelude.{
  Bool, List, Option, Result, Text, [], err, if◌then◌else◌, length, nat_eq, none, ok,
  option_text_eq, some, text_eq, true, ℕ, ◌>>=◌,
}

-- what the `try` blocks around the audience throw
unfoldable pub or_bad_request : {E A : Type 0} → Result E A → Result WriteError A
or_bad_request (ok a) = ok a
or_bad_request (err e) = err bad_request

unfoldable pub normalized_for :
    (date : ℕ → Text) → Text → List Text → ReleaseRow → Result WriteError NormalizedReleaseAudience
unfolding or_bad_request map_stored_release_record normalize_release_audience
normalized_for date app_name user_ids row = do
  mapped ← or_bad_request (map_stored_release_record date row)
  or_bad_request (
      normalize_release_audience (record {
        app_name = app_name;
        platforms = mapped.platforms;
        release_scope = some allowlist;
        user_ids = some user_ids;
      }))

abbrev pub user_count_summary : ℕ → ChangeSummary
user_count_summary n = record no_summary { user_count = some n }

abbrev pub scope_summary : ReleaseScope → ChangeSummary
scope_summary scope = record no_summary { release_scope = some scope }

unfoldable pub noted_users : List Text → Result WriteError NormalizedReleaseAudience → ChangeSummary
noted_users user_ids (ok normalized) = user_count_summary (length normalized.user_ids)
noted_users user_ids (err e) = user_count_summary (length user_ids)

-- `replaceUsers`
unfoldable pub replace_mutate :
    (date : ℕ → Text)
    → (app_name release_id : Text) → List Text
    → ℕ
    → ReleaseRow
    → ReleaseDb
    → Result WriteError (Option (Summary × List Part) × ReleaseDb)
unfolding normalized_for read_audience plan_change delete_users insert_users
replace_mutate date app_name release_id user_ids now row db = do
  normalized ← normalized_for date app_name user_ids row
  before ← read_audience release_id row db
  audience ← plan_change before (record before { user_ids = normalized.user_ids })
  ok (some audience, insert_users release_id normalized.user_ids now (delete_users release_id db))

unfoldable pub replacement :
    (date : ℕ → Text) → (app_name release_id : Text) → List Text → Option ℕ → ℕ → PolicyMutation
unfolding replace_mutate noted_users normalized_for
replacement date app_name release_id user_ids expected_revision now = record {
  action = audience_changed;
  expected_revision = expected_revision;
  change_summary = user_count_summary (length user_ids);
  noted = λ row. noted_users user_ids (normalized_for date app_name user_ids row);
  mutate = replace_mutate date app_name release_id user_ids now;
}

unfoldable pub set_scope : Text → ReleaseScope → ReleaseDb → ReleaseDb
unfolding update_where
set_scope release_id scope db = record db {
  releases =
      update_where (has_release_id release_id) (λ r. record r { release_scope = scope_text scope })
        db.releases;
}

abbrev pub next_audience : ReleaseScope → StoredAudience → StoredAudience
next_audience scope before = record {
  scope = some scope;
  user_ids = if is_public scope then [] else before.user_ids;
}

-- the statements of `changeScope`
unfoldable pub scoped : Text → ReleaseScope → ReleaseDb → ReleaseDb
unfolding set_scope delete_users
scoped release_id scope db =
    let changed = set_scope release_id scope db in
    if is_public scope then delete_users release_id changed else changed

unfoldable pub scope_mutate :
    Text
    → ReleaseScope
    → ReleaseRow
    → ReleaseDb
    → Result WriteError (Option (Summary × List Part) × ReleaseDb)
unfolding read_audience plan_change scoped
scope_mutate release_id scope row db = do
  before ← read_audience release_id row db
  audience ← plan_change before (next_audience scope before)
  ok (some audience, scoped release_id scope db)

unfoldable pub scope_change : Text → ReleaseScope → Option ℕ → PolicyMutation
unfolding scope_mutate
scope_change release_id scope expected_revision = record {
  action = audience_changed;
  expected_revision = expected_revision;
  change_summary = scope_summary scope;
  noted = λ row. scope_summary scope;
  mutate = scope_mutate release_id scope;
}

-- `setEnabled`
unfoldable pub enabling : (app_name release_id : Text) → Bool → PolicyMutation
unfolding set_enabled_value
enabling app_name release_id enabled =
    let summary : ChangeSummary = record no_summary { enabled = some enabled } in
    record {
      action = if enabled then enable else disable;
      expected_revision = none;
      change_summary = summary;
      noted = λ row. summary;
      mutate = λ row db. ok (none, set_enabled_value app_name release_id enabled db);
    }

-- `redispatch`
abbrev pub redispatching : PolicyMutation
redispatching =
    let summary : ChangeSummary = record no_summary { redispatch = some true } in
    record {
      action = redispatch;
      expected_revision = none;
      change_summary = summary;
      noted = λ row. summary;
      mutate = λ row db. ok (none, db);
    }
