-- ===== src/Contracts/Tests.antt =====
-- The theorems on user identifiers and versions at concrete texts.
use ota_api.Contracts.UserId.{ParsedUserId, parse_user_id, user_id_matches_context}
use ota_api.Contracts.UserId.Parsing.{
  IsComposite, composite, parse_user_id_iff, print_user_id, user_id_matches_context_iff,
}
use ota_api.Contracts.Version.{compare_versions, is_app_version, is_digit, is_numeral}
use ota_api.Contracts.Version.Numeric.{compare_components, compare_versions-value, components}
use ota_api.Prelude.{
  Text, all, list_beq, nat_eq, ok, option_text_eq, refl, some, split, text, text_eq, true, ◌↔◌, ◌≡◌,
}

abbrev a_user : ParsedUserId
a_user = record { app_name = text "shop"; platform = text "ios"; business_user_id = text "u:1" }

parse_user_id_iff_example :
    (parse_user_id (text "shop:ios:u:1") ≡ some a_user)
    ↔ (IsComposite a_user × (print_user_id a_user ≡ text "shop:ios:u:1"))
parse_user_id_iff_example = parse_user_id_iff (text "shop:ios:u:1") a_user

user_id_matches_context_iff_example :
    (user_id_matches_context (text "shop:ios:u:1") (text "shop") (text "ios") ≡ true) ↔ (
      (business : Text) × IsComposite (composite (text "shop") (text "ios") business)
      × (print_user_id (composite (text "shop") (text "ios") business) ≡ text "shop:ios:u:1"))
user_id_matches_context_iff_example =
    user_id_matches_context_iff (text "shop:ios:u:1") (text "shop") (text "ios")

valid_left : is_app_version (text "1.10.0") ≡ true
unfolding is_app_version is_numeral is_digit split all list_beq
valid_left = refl

valid_right : is_app_version (text "1.9.12") ≡ true
unfolding is_app_version is_numeral is_digit split all list_beq
valid_right = refl

compare_versions-value_example :
    compare_versions (text "1.10.0") (text "1.9.12")
    ≡ ok (compare_components (components (text "1.10.0")) (components (text "1.9.12")))
compare_versions-value_example =
    compare_versions-value (text "1.10.0") (text "1.9.12") valid_left valid_right
