-- ===== src/Releases/Drafts/Content.antt =====
-- The release's row that a draft's content is to become, independently of the code that writes it.
use ota_api.Contracts.Version.{is_app_version}
use ota_api.Contracts.Releases.{ReleaseScope, ReleaseUpdateType, allowlist, full, hot, public}
use ota_api.Releases.{DraftContent, ReleaseRow, StoredArtifact, bad_request, texts}
use ota_api.Releases.Drafts.Normalizing.{
  ReleaseUrls, artifact_url, is_absent, is_web_refresh, or_else, or_no_texts, release_urls, urls_of,
}
use ota_api.Releases.Drafts.Publishing.{size_of, write_input}
use ota_api.Releases.Drafts.Editing.{given}
use ota_api.Releases.Policy.{Call}
use ota_api.Releases.Records.{flag_value, release_write_values, scope_text, update_type_text}
use ota_api.Writes.{WriteError}
use ota_api.Prelude.{
  >>=-eq-ok, Bool, List, Option, Text, [], ap, false, nat_eq, none, not, ok, ok_value,
  option_text_eq, refl, require, some, subst, sym, text, text_eq, true, ℕ, ◌||◌, ◌∙◌, ◌≡◌,
}

-- The words of the release's row.
pub scope_word : ReleaseScope → Text
scope_word public = text "public"
scope_word allowlist = text "allowlist"

pub type_word : ReleaseUpdateType → Text
type_word full = text "full"
type_word hot = text "hot"

-- A switch of the draft, which is on unless the draft turns it off.
pub switch : Option Bool → ℕ
switch none = 1
switch (some true) = 1
switch (some false) = 0

pub listed_texts : Option (List Text) → List Text
listed_texts none = []
listed_texts (some xs) = xs

-- The size of the artifact, where there is one.
pub published_size : Option StoredArtifact → Option ℕ → Option ℕ
published_size none size = size
published_size (some a) size = some a.size_bytes

-- A link of the draft, or else the one of its artifact.
pub link : Option Text → Option StoredArtifact → Option Text
link (some url) artifact = some url
link none none = none
link none (some a) = some a.url

-- The artifact is for the installer of a full update, and for the bundle of a hot one.
pub installer_link : ReleaseUpdateType → DraftContent → Option StoredArtifact → Option Text
installer_link full d artifact = link d.installer_source_url artifact
installer_link hot d artifact = d.installer_source_url

pub bundle_link : ReleaseUpdateType → DraftContent → Option StoredArtifact → Option Text
bundle_link full d artifact = d.bundle_url
bundle_link hot d artifact = link d.bundle_url artifact

-- The row of a draft's content under a sequence.
pub record IsReleaseOf (app_name release_id : Text) (call : Call) (d : DraftContent)
    (artifact : Option StoredArtifact) (sequence : ℕ) (row : ReleaseRow) : Type 0 where
  pub identity :
      (row.release_sequence ≡ sequence) × (row.app_name ≡ app_name) × (row.release_id ≡ release_id)
  pub scope : row.release_scope ≡ scope_word d.release_scope
  pub policy_revision : row.policy_revision ≡ 1
  pub target_version : row.target_version ≡ d.target_version
  pub platforms : row.platforms ≡ texts d.platforms
  pub architectures : row.architectures ≡ texts (listed_texts d.architectures)
  pub distribution_channel : row.distribution_channel ≡ d.distribution_channel
  pub update_type : row.update_type ≡ type_word d.update_type
  pub release_notes : row.release_notes ≡ d.release_notes
  pub size : row.artifact_size_bytes ≡ published_size artifact d.artifact_size_bytes
  pub installer : row.installer_source_url ≡ installer_link d.update_type d artifact
  pub bundle : row.bundle_url ≡ bundle_link d.update_type d artifact
  pub switches :
      (row.is_enabled ≡ switch d.enabled)
      × (row.is_mandatory ≡ switch d.mandatory)
      × (row.show_update_dialog ≡ switch d.show_update_dialog)
  pub source_ip : row.source_ip ≡ call.context.source_ip
  pub times : (row.created_at ≡ call.now) × (row.updated_at ≡ call.now)

scope_word_lem : (s : ReleaseScope) → scope_text s ≡ scope_word s
unfolding scope_word
scope_word_lem public = refl
scope_word_lem allowlist = refl

type_word_lem : (t : ReleaseUpdateType) → update_type_text t ≡ type_word t
unfolding type_word
type_word_lem full = refl
type_word_lem hot = refl

switch_lem : (o : Option Bool) → flag_value (given o true) ≡ switch o
unfolding switch
switch_lem none = refl
switch_lem (some true) = refl
switch_lem (some false) = refl

listed_texts_lem : (o : Option (List Text)) → or_no_texts o ≡ listed_texts o
unfolding listed_texts
listed_texts_lem none = refl
listed_texts_lem (some xs) = refl

published_size_lem :
    (o : Option StoredArtifact) (size : Option ℕ) → size_of o size ≡ published_size o size
unfolding published_size
published_size_lem none size = refl
published_size_lem (some a) size = refl

link_lem :
    (url : Option Text) (o : Option StoredArtifact) → or_else url (artifact_url o) ≡ link url o
unfolding link
link_lem (some url) o = refl
link_lem none none = refl
link_lem none (some a) = refl

-- the links of a draft with its artifact
abbrev Links : ReleaseUpdateType → DraftContent → Option StoredArtifact → ReleaseUrls → Type 0
Links t d artifact urls =
    (urls.installer_source_url ≡ installer_link t d artifact)
    × (urls.bundle_url ≡ bundle_link t d artifact)

urls_of-Links :
    (t : ReleaseUpdateType) (d : DraftContent) (artifact : Option StoredArtifact)
    (urls : ReleaseUrls)
    → urls_of t d (artifact_url artifact) ≡ ok urls
    → Links t d artifact urls
unfolding urls_of installer_link bundle_link
urls_of-Links full d artifact urls h =
    let (u, _, q) =
      >>=-eq-ok
        (require
          (not (is_absent (or_else d.installer_source_url (artifact_url artifact)))
            || is_web_refresh d)
          bad_request)
        _ {end = urls} h in
    let e = ok_value {E = WriteError} _ _ refl urls q in
    (
      ap (λ (x : ReleaseUrls). x.installer_source_url) (sym e)
          ∙ link_lem d.installer_source_url artifact,
      ap (λ (x : ReleaseUrls). x.bundle_url) (sym e),
    )
urls_of-Links hot d artifact urls h =
    let (u, _, q) =
      >>=-eq-ok
        (require (not (is_absent (or_else d.bundle_url (artifact_url artifact)))) bad_request) _
        {end = urls} h in
    let e = ok_value {E = WriteError} _ _ refl urls q in
    (
      ap (λ (x : ReleaseUrls). x.installer_source_url) (sym e),
      ap (λ (x : ReleaseUrls). x.bundle_url) (sym e) ∙ link_lem d.bundle_url artifact,
    )

pub written-IsReleaseOf :
    (app_name release_id : Text) (call : Call) (d : DraftContent) (artifact : Option StoredArtifact)
    (urls : ReleaseUrls) (sequence : ℕ) (row : ReleaseRow)
    → release_urls d artifact ≡ ok urls
    → release_write_values (write_input app_name release_id d urls artifact call) sequence ≡ ok row
    → IsReleaseOf app_name release_id call d artifact sequence row
unfolding release_write_values write_input release_urls
written-IsReleaseOf app_name release_id call d artifact urls sequence row linked h =
    let (u, _, q) =
      >>=-eq-ok (require (is_app_version d.target_version) bad_request) _ {end = row} h in
    let l = urls_of-Links d.update_type d artifact urls linked in
    subst (IsReleaseOf app_name release_id call d artifact sequence)
      (ok_value {E = WriteError} _ _ refl row q)
      (record {
        identity = (refl, refl, refl);
        scope = scope_word_lem d.release_scope;
        policy_revision = refl;
        target_version = refl;
        platforms = refl;
        architectures = ap texts (listed_texts_lem d.architectures);
        distribution_channel = refl;
        update_type = type_word_lem d.update_type;
        release_notes = refl;
        size = published_size_lem artifact d.artifact_size_bytes;
        installer = l.0;
        bundle = l.1;
        switches = (switch_lem d.enabled, switch_lem d.mandatory, switch_lem d.show_update_dialog);
        source_ip = refl;
        times = (refl, refl);
      })
