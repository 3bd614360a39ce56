-- ===== src/Releases/Records/RoundTrip.antt =====
-- A release that is stored, and read again.
use ota_api.Contracts.Releases.{
  Release, ReleaseScope, ReleaseUpdateType, allowlist, full, hot, public,
}
use ota_api.Releases.{ReleaseRow, bad_request}
use ota_api.Releases.Records.{
  is_app_version, ReleaseWriteInput, flag, flag_value, invalid_context, map_stored_release_record,
  release_write_values, scope_of, scope_text, update_type_of, update_type_text,
}
use ota_api.Writes.{WriteError}
use ota_api.Prelude.{
  >>=-eq-ok, Bool, Text, arith, err, false, if◌then◌else◌, is_empty, list_beq, nat_eq, ok, ok_value,
  option_text_eq, refl, require, require-eq-ok, some, subst, text, text_eq, true, ℕ, ◌≡◌, ◌≤◌,
}

scope_of-text : (s : ReleaseScope) → scope_of (scope_text s) ≡ some s
unfolding list_beq
scope_of-text public = refl
scope_of-text allowlist = refl

update_type_of-text : (t : ReleaseUpdateType) → update_type_of (update_type_text t) ≡ some t
unfolding list_beq
update_type_of-text full = refl
update_type_of-text hot = refl

flag-value : (key : Text) (b : Bool) → flag key (flag_value b) ≡ ok b
flag-value key true = refl
flag-value key false = refl

-- the release that an input stores under a sequence
abbrev pub stored_release : (date : ℕ → Text) → ReleaseWriteInput → ℕ → Release
stored_release date input sequence = record {
  release_id = input.release_id;
  release_sequence = sequence;
  app_name = input.app_name;
  target_version = input.target_version;
  platforms = input.platforms;
  architectures = input.architectures;
  distribution_channel = input.distribution_channel;
  update_type = input.update_type;
  scope = input.release_scope;
  enabled = input.enabled;
  mandatory = input.mandatory;
  show_update_dialog = input.show_update_dialog;
  policy_revision = some 1;
  release_notes = input.release_notes;
  artifact_size_bytes = input.artifact_size_bytes;
  installer_source_url = input.installer_source_url;
  bundle_url = input.bundle_url;
  created_at = some (date input.created_at);
  updated_at = some (date input.created_at);
}

-- A release that is stored reads back as what was stored, at its first policy revision, if it has a
-- platform; without one the stored row is refused as an invalid context.
pub map_stored_release_record-write_values :
    (date : ℕ → Text) (input : ReleaseWriteInput) (sequence : ℕ) (row : ReleaseRow)
    → release_write_values input sequence ≡ ok row
    → 1 ≤ sequence
    → map_stored_release_record date row ≡ (
        if is_empty input.platforms
        then err invalid_context
        else ok (stored_release date input sequence))
unfolding release_write_values map_stored_release_record
map_stored_release_record-write_values date input sequence row h positive =
    let (u, valid, e) =
      >>=-eq-ok (require (is_app_version input.target_version) bad_request) _ {end = row} h in
    let v = require-eq-ok _ bad_request u valid in
    subst
      (λ r. map_stored_release_record date r ≡ (
        if is_empty input.platforms
        then err invalid_context
        else ok (stored_release date input sequence)))
      (ok_value {E = WriteError} _ _ refl row e)
      (rw
        (
          v,
          scope_of-text input.release_scope,
          update_type_of-text input.update_type,
          flag-value (text "is_enabled") input.enabled,
          flag-value (text "is_mandatory") input.mandatory,
          flag-value (text "show_update_dialog") input.show_update_dialog,
        )
        (ground (arith, positive)))
