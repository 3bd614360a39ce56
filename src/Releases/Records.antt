-- ===== src/Releases/Records.antt =====
-- src/releases/release-record.mapper.ts, src/infrastructure/persistence/release-write.mapper.ts and
-- sql-release.repository.ts: a release as the table stores it.
pub mod RoundTrip
use ota_api.Contracts.Releases.{
  Release, ReleaseScope, ReleaseUpdateType, allowlist, full, hot, public,
}
use ota_api.Contracts.Version.{is_app_version}
use ota_api.Jobs.Rows.{update_where}
use ota_api.Releases.{ReleaseRow, bad_request, ReleaseDb, StoredList, other_json, texts}
use ota_api.Writes.{WriteError, other_error, query_failed}
use ota_api.Prelude.{
  Bool, List, Option, Result, Text, [], any, err, false, if◌then◌else◌, is_empty, leb, nat_eq, none,
  not, ok, option_text_eq, require, some, text, text_eq, true, ℕ, ◌&&◌, ◌++◌, ◌+◌, ◌==◌, ◌>>=◌,
  ◌>>◌, ◌∷◌,
}

pub data MapError : Type 0 where
  invalid_identity invalid_policy invalid_context : MapError
  invalid_list invalid_flag : Text → MapError

abbrev pub scope_of : Text → Option ReleaseScope
scope_of scope =
    if scope == text "public"
    then some public
    else if scope == text "allowlist"
    then some allowlist
    else none

abbrev pub update_type_of : Text → Option ReleaseUpdateType
update_type_of t =
    if t == text "full" then some full else if t == text "hot" then some hot else none

abbrev pub policy_of :
    Option ReleaseScope
    → Option ReleaseUpdateType
    → Result MapError (ReleaseScope × ReleaseUpdateType)
policy_of (some scope) (some update_type) = ok (scope, update_type)
policy_of _ _ = err invalid_policy

-- `list` of both columns, and the tests of them
abbrev pub lists_of : StoredList → StoredList → Result MapError (List Text × List Text)
lists_of other_json architectures = err (invalid_list (text "platforms"))
lists_of platforms other_json = err (invalid_list (text "architectures"))
lists_of (texts platforms) (texts architectures) =
    if is_empty platforms then err invalid_context else ok (platforms, architectures)
lists_of _ _ = err invalid_context

-- a TINYINT column
abbrev pub flag : Text → ℕ → Result MapError Bool
flag key n = if n == 0 then ok false else if n == 1 then ok true else err (invalid_flag key)

-- `date` is the driver's form of a date
module _ (date : ℕ → Text) where
  unfoldable pub map_stored_release_record : ReleaseRow → Result MapError Release
  unfolding is_app_version
  map_stored_release_record row = do
    require
        (leb 1 row.release_sequence
          && (leb 1 row.policy_revision && is_app_version row.target_version))
        invalid_identity
    policy ← policy_of (scope_of row.release_scope) (update_type_of row.update_type)
    lists ← lists_of row.platforms row.architectures
    is_enabled ← flag (text "is_enabled") row.is_enabled
    is_mandatory ← flag (text "is_mandatory") row.is_mandatory
    shows ← flag (text "show_update_dialog") row.show_update_dialog
    ok (record {
      release_id = row.release_id;
      release_sequence = row.release_sequence;
      app_name = row.app_name;
      target_version = row.target_version;
      platforms = lists.0;
      architectures = lists.1;
      distribution_channel = row.distribution_channel;
      update_type = policy.1;
      scope = policy.0;
      enabled = is_enabled;
      mandatory = is_mandatory;
      show_update_dialog = shows;
      policy_revision = some row.policy_revision;
      release_notes = row.release_notes;
      artifact_size_bytes = row.artifact_size_bytes;
      installer_source_url = row.installer_source_url;
      bundle_url = row.bundle_url;
      created_at = some (date row.created_at);
      updated_at = some (date row.updated_at);
    })

pub record ReleaseWriteInput : Type 0 where
  pub app_name : Text
  pub release_id : Text
  pub target_version : Text
  pub platforms : List Text
  pub architectures : List Text
  pub distribution_channel : Option Text
  pub update_type : ReleaseUpdateType
  pub release_scope : ReleaseScope
  pub release_notes : Option Text
  pub artifact_size_bytes : Option ℕ
  pub installer_source_url : Option Text
  pub bundle_url : Option Text
  pub enabled : Bool
  pub mandatory : Bool
  pub show_update_dialog : Bool
  pub created_at : ℕ
  pub source_ip : Option Text

abbrev pub scope_text : ReleaseScope → Text
scope_text public = text "public"
scope_text allowlist = text "allowlist"

abbrev pub update_type_text : ReleaseUpdateType → Text
update_type_text full = text "full"
update_type_text hot = text "hot"

abbrev pub flag_value : Bool → ℕ
flag_value b = if b then 1 else 0

-- the values, with the sequence that the table generates
unfoldable pub release_write_values : ReleaseWriteInput → ℕ → Result WriteError ReleaseRow
unfolding is_app_version
release_write_values input sequence = do
  require (is_app_version input.target_version) bad_request
  ok (record {
    release_sequence = sequence;
    app_name = input.app_name;
    release_id = input.release_id;
    release_scope = scope_text input.release_scope;
    policy_revision = 1;
    target_version = input.target_version;
    platforms = texts input.platforms;
    architectures = texts input.architectures;
    distribution_channel = input.distribution_channel;
    update_type = update_type_text input.update_type;
    release_notes = input.release_notes;
    artifact_size_bytes = input.artifact_size_bytes;
    installer_source_url = input.installer_source_url;
    bundle_url = input.bundle_url;
    is_enabled = flag_value input.enabled;
    is_mandatory = flag_value input.mandatory;
    show_update_dialog = flag_value input.show_update_dialog;
    source_ip = input.source_ip;
    created_at = input.created_at;
    updated_at = input.created_at;
  })

-- `release_id = :releaseId AND app_name = :appName`
abbrev pub is_release : Text → Text → ReleaseRow → Bool
is_release app_name release_id r = r.release_id == release_id && r.app_name == app_name

abbrev pub has_release_id : Text → ReleaseRow → Bool
has_release_id release_id r = r.release_id == release_id

-- `insert`: the identifier is unique in the table, and the next sequence is generated from 1 on
unfoldable pub insert_release :
    (app_name : Text) → ReleaseWriteInput → ReleaseDb → Result WriteError (ℕ × ReleaseDb)
unfolding release_write_values any
insert_release app_name input db = do
  row ← release_write_values input db.next_sequence
  require (input.app_name == app_name) other_error
  require (not (any (has_release_id input.release_id) db.releases)) query_failed
  require (leb 1 row.release_sequence) other_error
  ok (
    row.release_sequence,
    record db { releases = db.releases ++ row ∷ []; next_sequence = db.next_sequence + 1 },
  )

unfoldable pub set_enabled_value : (app_name release_id : Text) → Bool → ReleaseDb → ReleaseDb
unfolding update_where
set_enabled_value app_name release_id enabled db = record db {
  releases =
      update_where (is_release app_name release_id)
        (λ r. record r { is_enabled = flag_value enabled }) db.releases;
}
