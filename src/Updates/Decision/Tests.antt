-- ===== src/Updates/Decision/Tests.antt =====
-- Runs of `resolveUpdate` at a small catalog, and its theorems there.
use ota_api.Contracts.Version.{is_app_version, compare_versions, is_numeral, text_gt}
use ota_api.Contracts.Releases.{
  ApplicationUpdatePolicy, AudienceSnapshot, AvailableReleaseSnapshot, ClientUpdateContext, Release,
  ReleaseUpdateType, UpdateDecision, UpdateDecisionReason, UpdateSkipReason,
  default_application_update_policy, full, hot, public,
}
use ota_api.Updates.Decision.{sort_by, resolve_update, stages}
use ota_api.Updates.Decision.Selection.{HasVersion, Selected}
use ota_api.Updates.Decision.Candidates.{IsCandidate}
use ota_api.Updates.Decision.Offers.{IsApplicable, resolve_update-Selected}
use ota_api.Updates.Decision.Offers.Flags.{dialog_of, resolve_update-mandatory}
use ota_api.Updates.Decision.Offers.Diagnosis.{Diagnosis, resolve_update-Diagnosis}
use ota_api.Contracts.Version.{compare_versions, text_gt, is_numeral}
use ota_api.Updates.Decision.Sorting.{sort_by, insert_by, filter_throwing}
use ota_api.Prelude.{
  All, Bool, Text, [], all, any, false, filter, get, if◌then◌else◌, is_empty, list_beq, nat_eq,
  none, ok, option_text_eq, refl, some, split, text, text_eq, true, ℕ, ◌||◌, ◌↔◌, ◌∷◌, ◌≡◌, ◌≢◌,
}

abbrev client : ClientUpdateContext
client = record {
  app_name = text "shop";
  platform = text "macos";
  architecture = some (text "arm64");
  distribution_channel = none;
  current_version = text "1.9.0";
  installed_release_sequence = 3;
  user_ids = [];
}

abbrev release : Text → ℕ → ReleaseUpdateType → Bool → Release
release version sequence kind mandatory = record {
  release_id = text "r";
  release_sequence = sequence;
  app_name = text "shop";
  target_version = version;
  platforms = text "macos" ∷ [];
  architectures = text "universal" ∷ [];
  distribution_channel = none;
  update_type = kind;
  scope = public;
  enabled = true;
  mandatory = mandatory;
  show_update_dialog = false;
  policy_revision = none;
  release_notes = none;
  artifact_size_bytes = none;
  installer_source_url = none;
  bundle_url = none;
  created_at = none;
  updated_at = none;
}

-- An older full release that is mandatory, a newer one, and a hot release.
abbrev catalog : AvailableReleaseSnapshot
catalog = record {
  revision = 4;
  releases =
      release (text "1.9.5") 5 full true
      ∷ release (text "1.10.0") 4 full false
      ∷ release (text "1.9.0") 6 hot false
      ∷ [];
}

abbrev nobody : AudienceSnapshot
nobody = record { revision = 2; user_ids_by_release_id = [] }

abbrev policy : ApplicationUpdatePolicy
policy = default_application_update_policy

client_version : is_app_version client.current_version ≡ true
unfolding is_app_version is_numeral split all
client_version = refl

catalog_versions : All HasVersion catalog.releases
unfolding is_app_version is_numeral split all
catalog_versions = (refl, (refl, (refl, tt)))

abbrev offered : UpdateDecision
offered = record {
  release = some (release (text "1.10.0") 4 full false);
  mandatory = true;
  show_update_dialog = true;
  reason = UpdateDecisionReason.update_available;
  skip_reason = none;
  revision = 4;
}

offers_newest : resolve_update client catalog nobody policy ≡ ok offered
unfolding resolve_update compare_versions is_app_version is_numeral split all filter any list_beq
    sort_by insert_by filter_throwing text_gt get
offers_newest = refl

abbrev away : ClientUpdateContext
away = record client { distribution_channel = some (text "beta"); platform = text "linux" }

abbrev skipped : UpdateDecision
skipped = record {
  release = none;
  mandatory = false;
  show_update_dialog = false;
  reason = UpdateDecisionReason.no_applicable_release;
  skip_reason = some UpdateSkipReason.platform_mismatch;
  revision = 4;
}

skips_platform : resolve_update away catalog nobody policy ≡ ok skipped
unfolding resolve_update compare_versions is_app_version is_numeral split all filter any list_beq
    sort_by insert_by filter_throwing text_gt get
skips_platform = refl

resolve_update-Selected_example :
    (d : UpdateDecision) × (resolve_update client catalog nobody policy ≡ ok d)
    × Selected client (IsApplicable client catalog nobody policy) d.release
resolve_update-Selected_example =
    resolve_update-Selected client catalog nobody policy client_version catalog_versions

resolve_update-mandatory_example :
    ((offered.mandatory ≡ true) ↔ (
      (offered.release ≢ none)
      × ((c : Release) × IsCandidate client (IsApplicable client catalog nobody policy) c
          × (c.mandatory ≡ true))))
    × (offered.show_update_dialog ≡ offered.mandatory || dialog_of offered.release)
resolve_update-mandatory_example =
    resolve_update-mandatory client catalog nobody policy client_version catalog_versions
      {d = offered} offers_newest

resolve_update-Diagnosis_example :
    (skipped.release ≡ none)
    × Diagnosis
        (stages away nobody policy)
        (filter (λ (r : Release). r.enabled) catalog.releases)
        (if is_empty (filter (λ (r : Release). r.enabled) catalog.releases)
          then UpdateSkipReason.no_enabled_release
          else UpdateSkipReason.already_current)
        UpdateSkipReason.platform_mismatch
resolve_update-Diagnosis_example =
    resolve_update-Diagnosis away catalog nobody policy skips_platform refl
