-- ===== src/Audience/Tests.antt =====
-- The audience theorems at concrete audiences.
use ota_api.Contracts.Releases.{allowlist}
use ota_api.Contracts.UserId.{parse_user_id, user_id_matches_context}
use ota_api.Audience.Normalizing.{
  IsNormal, NormalizedReleaseAudience, ReleaseAudienceInput, normalize_release_audience,
  normalize_release_audience-IsNormal, require_matches,
}
use ota_api.Audience.Changes.{
  Part, StoredAudience, Summary, members, parts_of, plan_audience_change,
}
use ota_api.Audience.Changes.Completeness.{IsComplete, plan_audience_change-IsComplete}
use ota_api.Auth.Keys.Management.{insert_text, sort_texts}
use ota_api.Contracts.Version.{text_gt}
use ota_api.Prelude.{
  List, [], add, any, filter, find, is_space, list_beq, nat_eq, ok, option_text_eq, refl, some,
  text, text_eq, to_set, trim, trim_start, ◌∷◌, ◌≡◌,
}

abbrev an_input : ReleaseAudienceInput
an_input = record {
  app_name = text "shop";
  platforms = text "ios" ∷ [];
  release_scope = some allowlist;
  user_ids = some (text " shop:ios:u" ∷ text "shop:ios:u" ∷ []);
}

abbrev an_audience : NormalizedReleaseAudience
an_audience = record { release_scope = allowlist; user_ids = text "shop:ios:u" ∷ [] }

normalizes : normalize_release_audience an_input ≡ ok an_audience
unfolding normalize_release_audience require_matches user_id_matches_context parse_user_id to_set
    add trim trim_start is_space any find list_beq
normalizes = refl

normalize_release_audience-IsNormal_example : IsNormal an_input an_audience
normalize_release_audience-IsNormal_example =
    normalize_release_audience-IsNormal an_input an_audience normalizes

abbrev earlier : StoredAudience
earlier = record { scope = some allowlist; user_ids = text "b" ∷ text "a" ∷ [] }

abbrev later : StoredAudience
later = record { scope = some allowlist; user_ids = text "c" ∷ text "b" ∷ [] }

abbrev a_summary : Summary
a_summary = record {
  scope_before = some allowlist;
  scope_after = some allowlist;
  user_count_before = 2;
  user_count_after = 2;
  added_count = 1;
  removed_count = 1;
  part_count = 1;
}

abbrev some_parts : List Part
some_parts = record { added_user_ids = text "c" ∷ []; removed_user_ids = text "a" ∷ [] } ∷ []

plans : plan_audience_change earlier later ≡ ok (a_summary, some_parts)
unfolding plan_audience_change members parts_of sort_texts insert_text text_gt to_set add filter any
    list_beq
plans = refl

plan_audience_change-IsComplete_example : IsComplete earlier later a_summary some_parts
plan_audience_change-IsComplete_example =
    plan_audience_change-IsComplete earlier later a_summary some_parts plans
