-- ===== src/Releases/Drafts.antt =====
-- src/releases/release-draft.service.ts and src/releases/draft-audit.ts: drafts of releases, and their
-- publication.
pub mod Normalizing
pub mod Creating
pub mod Editing
pub mod Publishing
pub mod Keys
pub mod Lifecycle
pub mod Final
pub mod Content
pub mod Marking
pub mod Publication
use ota_api.Contracts.Releases.{ReleaseScope, ReleaseUpdateType, allowlist, full, hot, public}
use ota_api.Releases.{DraftContent}
use ota_api.Prelude.{
  Bool, List, Option, Text, [], any, false, filter, if◌then◌else◌, map, nat_eq, none, not,
  option_text_eq, some, text, text_eq, true, ℕ, ◌&&◌, ◌==◌, ◌∷◌,
}

-- `JSON.stringify` of equal content: JSON has no other form of a value here, and an absent field has none
abbrev pub same_list : List Text → List Text → Bool
same_list [] [] = true
same_list (x ∷ xs) (y ∷ ys) = x == y && same_list xs ys
same_list _ _ = false

abbrev pub same_bool : Bool → Bool → Bool
same_bool a b = if a then b else not b

abbrev pub same_option : {A : Type 0} → (A → A → Bool) → Option A → Option A → Bool
same_option same none none = true
same_option same (some a) (some b) = same a b
same_option same _ _ = false

abbrev pub same_scope : ReleaseScope → ReleaseScope → Bool
same_scope public public = true
same_scope allowlist allowlist = true
same_scope _ _ = false

abbrev pub same_update_type : ReleaseUpdateType → ReleaseUpdateType → Bool
same_update_type full full = true
same_update_type hot hot = true
same_update_type _ _ = false

abbrev pub same_number : ℕ → ℕ → Bool
same_number a b = a == b

abbrev pub same_text : Text → Text → Bool
same_text a b = a == b

-- A field and whether it differs. Before its creation a draft is `{}`.
abbrev pub differs :
    {A : Type 0}
    → (A → A → Bool)
    → (DraftContent → Option A)
    → Option DraftContent
    → DraftContent
    → Bool
differs same field none after = not (same_option same none (field after))
differs same field (some before) after = not (same_option same (field before) (field after))

unfoldable pub field_changes : Option DraftContent → DraftContent → List (Text × Bool)
field_changes before after =
    (text "targetVersion", differs same_text (λ d. some d.target_version) before after)
    ∷ (text "platforms", differs same_list (λ d. some d.platforms) before after)
    ∷ (text "architectures", differs same_list (λ d. d.architectures) before after)
    ∷ (text "distributionChannel", differs same_text (λ d. d.distribution_channel) before after)
    ∷ (text "updateType", differs same_update_type (λ d. some d.update_type) before after)
    ∷ (text "releaseScope", differs same_scope (λ d. some d.release_scope) before after)
    ∷ (text "userIds", differs same_list (λ d. some d.user_ids) before after)
    ∷ (text "releaseNotes", differs same_text (λ d. d.release_notes) before after)
    ∷ (text "artifactId", differs same_text (λ d. d.artifact_id) before after)
    ∷ (text "installerSourceUrl", differs same_text (λ d. d.installer_source_url) before after)
    ∷ (text "bundleUrl", differs same_text (λ d. d.bundle_url) before after)
    ∷ (text "artifactSizeBytes", differs same_number (λ d. d.artifact_size_bytes) before after)
    ∷ (text "enabled", differs same_bool (λ d. d.enabled) before after)
    ∷ (text "mandatory", differs same_bool (λ d. d.mandatory) before after)
    ∷ (text "showUpdateDialog", differs same_bool (λ d. d.show_update_dialog) before after)
    ∷ []

unfoldable pub draft_changed_fields : Option DraftContent → DraftContent → List Text
unfolding field_changes filter
draft_changed_fields before after =
    map (λ (f : Text × Bool). f.0) (filter (λ (f : Text × Bool). f.1) (field_changes before after))

-- `sameDraftContent` of two drafts: these are all the fields of one
unfoldable pub same_draft_content : DraftContent → DraftContent → Bool
unfolding field_changes any
same_draft_content before after =
    not (any (λ (f : Text × Bool). f.1) (field_changes (some before) after))
