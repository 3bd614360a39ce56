-- ===== src/Contracts/Releases.antt =====
-- src/contracts/releases.ts and release-values.ts: releases, client contexts and decisions.
use ota_api.Prelude.{Bool, List, Option, Text, [], text, ℕ, ◌∷◌}

pub data ReleaseScope : Type 0 where
  public allowlist : ReleaseScope

pub data ReleaseUpdateType : Type 0 where
  full hot : ReleaseUpdateType

pub record ClientUpdateContext : Type 0 where
  pub app_name : Text
  pub platform : Text
  pub architecture : Option Text
  pub distribution_channel : Option Text
  pub current_version : Text
  pub installed_release_sequence : ℕ
  pub user_ids : List Text

pub record Release : Type 0 where
  pub release_id : Text
  pub release_sequence : ℕ
  pub app_name : Text
  pub target_version : Text
  pub platforms : List Text
  pub architectures : List Text
  pub distribution_channel : Option Text
  pub update_type : ReleaseUpdateType
  pub scope : ReleaseScope
  pub enabled : Bool
  pub mandatory : Bool
  pub show_update_dialog : Bool
  pub policy_revision : Option ℕ
  pub release_notes : Option Text
  pub artifact_size_bytes : Option ℕ
  pub installer_source_url : Option Text
  pub bundle_url : Option Text
  pub created_at : Option Text
  pub updated_at : Option Text

pub record AvailableReleaseSnapshot : Type 0 where
  pub revision : ℕ
  pub releases : List Release

-- the map's entries: a release and its set of users
pub record AudienceSnapshot : Type 0 where
  pub revision : ℕ
  pub user_ids_by_release_id : List (Text × List Text)

pub record ApplicationUpdatePolicy : Type 0 where
  pub macos_universal_architectures : List Text

pub data UpdateDecisionReason : Type 0 where
  update_available no_enabled_release no_applicable_release : UpdateDecisionReason

pub data UpdateSkipReason : Type 0 where
  no_enabled_release application_mismatch platform_mismatch architecture_mismatch : UpdateSkipReason
  channel_mismatch audience_mismatch already_current : UpdateSkipReason

pub record UpdateDecision : Type 0 where
  pub release : Option Release
  pub mandatory : Bool
  pub show_update_dialog : Bool
  pub reason : UpdateDecisionReason
  pub skip_reason : Option UpdateSkipReason
  pub revision : ℕ

abbrev pub default_application_update_policy : ApplicationUpdatePolicy
default_application_update_policy = record {
  macos_universal_architectures = text "arm64" ∷ text "x64" ∷ [];
}
