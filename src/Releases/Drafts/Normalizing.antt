-- ===== src/Releases/Drafts/Normalizing.antt =====
-- src/releases/release-draft.service.ts: what a draft must have to be stored, and to be published.
use ota_api.Audience.Normalizing.{normalize_release_audience}
use ota_api.Contracts.Releases.{ReleaseUpdateType, full, hot}
use ota_api.Releases.{DraftContent, StoredArtifact, bad_request}
use ota_api.Releases.Policy.Mutations.{or_bad_request}
use ota_api.Writes.{WriteError}
use ota_api.Prelude.{
  Bool, List, Option, Result, Text, [], all, false, is_empty, nat_eq, none, not, ok, option_text_eq,
  require, some, text, text_eq, to_set, true, ◌&&◌, ◌==◌, ◌>>=◌, ◌>>◌, ◌||◌,
}

-- `!value` of an optional text
abbrev pub is_absent : Option Text → Bool
is_absent none = true
is_absent (some t) = is_empty t

abbrev pub is_full : ReleaseUpdateType → Bool
is_full full = true
is_full hot = false

unfoldable pub is_web_refresh : DraftContent → Bool
unfolding all
is_web_refresh d =
    is_full d.update_type && (not (is_empty d.platforms) && all (λ p. p == text "web") d.platforms)

abbrev pub or_no_texts : Option (List Text) → List Text
or_no_texts none = []
or_no_texts (some xs) = xs

unfoldable pub normalize_draft : Text → DraftContent → Result WriteError DraftContent
unfolding normalize_release_audience or_bad_request is_web_refresh to_set
normalize_draft app_name body = do
  audience ← or_bad_request (
      normalize_release_audience (record {
        app_name = app_name;
        platforms = to_set [] body.platforms;
        release_scope = some body.release_scope;
        user_ids = some body.user_ids;
      }))
  require
      (is_web_refresh body
        || not (
            is_absent body.artifact_id
            && (is_absent body.installer_source_url && is_absent body.bundle_url)))
      bad_request
  ok (record body {
    platforms = to_set [] body.platforms;
    architectures = some (to_set [] (or_no_texts body.architectures));
    user_ids = audience.user_ids;
    release_scope = audience.release_scope;
  })

-- `??`
abbrev pub or_else : {A : Type 0} → Option A → Option A → Option A
or_else none other = other
or_else (some a) other = some a

abbrev pub artifact_url : Option StoredArtifact → Option Text
artifact_url none = none
artifact_url (some a) = some a.url

pub record ReleaseUrls : Type 0 where
  pub installer_source_url : Option Text
  pub bundle_url : Option Text

unfoldable pub urls_of :
    ReleaseUpdateType → DraftContent → Option Text → Result WriteError ReleaseUrls
unfolding is_web_refresh
urls_of full payload url = do
  require (not (is_absent (or_else payload.installer_source_url url)) || is_web_refresh payload)
      bad_request
  ok (record {
    installer_source_url = or_else payload.installer_source_url url;
    bundle_url = payload.bundle_url;
  })
urls_of hot payload url = do
  require (not (is_absent (or_else payload.bundle_url url))) bad_request
  ok (record {
    installer_source_url = payload.installer_source_url;
    bundle_url = or_else payload.bundle_url url;
  })

unfoldable pub release_urls : DraftContent → Option StoredArtifact → Result WriteError ReleaseUrls
unfolding urls_of
release_urls payload artifact = urls_of payload.update_type payload (artifact_url artifact)
