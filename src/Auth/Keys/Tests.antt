-- ===== src/Auth/Keys/Tests.antt =====
-- One access key of one application, and the theorems at it.
use ota_api.Auth.Keys.{
  Application, Database, Key, api_key_applications_granted, api_key_revoked, authenticate, find_key,
  granted, invalid_access_key, is_hex, is_key_id, is_url_safe, is_variant, matches_each,
  parse_token, token_parts, Principal, api_key_created, is_control, parse_preset,
  valid_api_key_name,
}
use ota_api.Auth.Keys.Management.{
  change_applications, grant, has_duplicate, insert_text, is_app_name, is_name_part, is_name_start,
  require_active, revoke, revoke_found, revoke_key, sort_texts, validate_applications, write_change,
  CreateKey, create,
}
use ota_api.Auth.Keys.Credentials.{revoke-authenticate}
use ota_api.Auth.Keys.Issuing.{create-authenticate, is_sha256}
use ota_api.Auth.Keys.Grants.{change_applications-grants, holds_after}
use ota_api.Contracts.Version.{is_digit, text_gt}
use ota_api.Prelude.{
  Text, [], all, any, err, filter, if◌then◌else◌, includes, is_space, list_beq, nat_eq, none, ok,
  option_text_eq, refl, some, starts_with, text, text_eq, trim, trim_start, true, ◌++◌, ◌==◌, ◌∷◌,
  ◌≡◌,
}

abbrev an_id : Text
an_id = text "00000000-0000-4000-8000-000000000000"

abbrev a_secret : Text
a_secret = text "0123456789012345678901234567890123456789012"

abbrev a_key : Key
a_key = record {
  key_id = an_id;
  name = text "ci";
  secret_hash = text "00";
  preset = text "publisher";
  created_at = 0;
  expires_at = none;
  revoked_at = none;
  last_used_at = none;
}

abbrev shop : Application
shop = record { app_name = text "shop"; status = text "ready"; schema_version = 1 }

abbrev held : Database
held = record {
  keys = a_key ∷ [];
  grants = record { key_id = an_id; app_name = text "old" } ∷ [];
  applications = shop ∷ [];
  audits = [];
}

abbrev widened : Database
widened = record {
  keys = a_key ∷ [];
  grants =
      record { key_id = an_id; app_name = text "old" }
      ∷ record { key_id = an_id; app_name = text "shop" }
      ∷ [];
  applications = shop ∷ [];
  audits =
      record {
        action = api_key_applications_granted;
        target_id = an_id;
        before = text "old" ∷ [];
        after = text "old" ∷ text "shop" ∷ [];
      }
      ∷ [];
}

abbrev revoked : Database
revoked = record {
  keys = record a_key { revoked_at = some 5 } ∷ [];
  grants = record { key_id = an_id; app_name = text "old" } ∷ [];
  applications = shop ∷ [];
  audits = record { action = api_key_revoked; target_id = an_id; before = []; after = [] } ∷ [];
}

widens :
    change_applications grant an_id (text "shop" ∷ []) 5 held
    ≡ ok (widened, text "old" ∷ text "shop" ∷ [])
unfolding change_applications is_key_id matches_each is_hex is_variant is_digit
    validate_applications is_app_name is_name_start is_name_part all sort_texts insert_text text_gt
    has_duplicate require_active find_key granted write_change filter any list_beq
widens = refl

revokes : revoke an_id 5 held ≡ ok revoked
unfolding revoke is_key_id matches_each is_hex is_variant is_digit revoke_found revoke_key find_key
    list_beq
revokes = refl

token_parses :
    parse_token (text "ota_ak_" ++ an_id ++ text "." ++ a_secret) ≡ some (an_id, a_secret)
unfolding parse_token token_parts starts_with is_key_id matches_each is_hex is_variant is_digit
    is_url_safe all list_beq
token_parses = refl

revoke-authenticate_example :
    authenticate (λ s. s) revoked 6 (text "ota_ak_" ++ an_id ++ text "." ++ a_secret)
    ≡ err invalid_access_key
revoke-authenticate_example =
    revoke-authenticate (λ s. s) an_id (text "ota_ak_" ++ an_id ++ text "." ++ a_secret) a_secret 5
      6 held revoked revokes token_parses

change_applications-grants_example :
    (includes (granted an_id widened.grants) (text "shop") ≡ (
      if an_id == an_id
      then holds_after grant
          (includes (granted an_id held.grants) (text "shop"))
          (includes (text "shop" ∷ []) (text "shop"))
      else includes (granted an_id held.grants) (text "shop")))
    × (includes (text "old" ∷ text "shop" ∷ []) (text "shop")
        ≡ includes (granted an_id widened.grants) (text "shop"))
change_applications-grants_example =
    change_applications-grants grant an_id (text "shop" ∷ []) 5 held widened
      (text "old" ∷ text "shop" ∷ []) widens an_id (text "shop")

abbrev a_digest : Text → Text
a_digest secret = text "0123456789abcdef0123456789abcdef0123456789abcdef0123456789abcdef"

abbrev a_request : CreateKey
a_request = record {
  name = text "ci";
  applications = text "shop" ∷ [];
  preset = text "publisher";
  expires_at = some 100;
}

abbrev no_keys : Database
no_keys = record { keys = []; grants = []; applications = shop ∷ []; audits = [] }

abbrev with_key : Database
with_key = record {
  keys =
      record a_key { secret_hash = a_digest a_secret; created_at = 5; expires_at = some 100 } ∷ [];
  grants = record { key_id = an_id; app_name = text "shop" } ∷ [];
  applications = shop ∷ [];
  audits =
      record { action = api_key_created; target_id = an_id; before = []; after = text "shop" ∷ [] }
      ∷ [];
}

abbrev a_token : Text
a_token = text "ota_ak_" ++ (an_id ++ (text "." ++ a_secret))

creates : create a_digest an_id a_secret a_request 5 no_keys ≡ ok (with_key, a_token)
unfolding create valid_api_key_name is_control trim trim_start is_space any parse_preset
    validate_applications is_app_name is_name_start is_name_part is_digit all sort_texts insert_text
    text_gt has_duplicate list_beq
creates = refl

id_is_well_formed : is_key_id an_id ≡ true
unfolding is_key_id matches_each is_hex is_variant is_digit
id_is_well_formed = refl

secret_is_safe : all is_url_safe a_secret ≡ true
unfolding all is_url_safe is_digit
secret_is_safe = refl

digest_is_hex : is_sha256 (a_digest a_secret) ≡ true
unfolding all is_hex is_digit
digest_is_hex = refl

create-authenticate_example :
    (p : Principal) × (authenticate a_digest with_key 6 a_token ≡ ok p)
    × ((a : Text) → includes p.applications a ≡ includes (text "shop" ∷ []) a)
unfolding find_key granted
create-authenticate_example =
    create-authenticate a_digest an_id a_secret a_request 5 6 no_keys with_key a_token creates
      id_is_well_formed refl secret_is_safe digest_is_hex refl refl refl
