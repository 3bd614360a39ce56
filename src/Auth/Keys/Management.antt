-- ===== src/Auth/Keys/Management.antt =====
-- src/auth/api-key-management.service.ts: the operator's transactions. Each takes the database before
-- it and returns the one after; where it throws, the transaction is rolled back.
use ota_api.Auth.Keys.{
  Action, Application, Database, Grant, Key, KeyError, Preset, api_key_applications_granted,
  api_key_applications_ungranted, api_key_created, api_key_revoked, application_not_ready,
  duplicate_grants, find_key, granted, grants_out_of_range, invalid_application_name,
  invalid_expiry, invalid_key_id, invalid_key_name, is_active, is_key_id, is_null, is_open,
  key_not_active, key_not_found, parse_preset, too_many_grants, unknown_preset, valid_api_key_name,
}
use ota_api.Contracts.Version.{is_digit, text_gt}
use ota_api.Prelude.{
  Bool, List, Option, Result, Text, [], all, any, err, false, filter, if◌then◌else◌, includes,
  is_empty, leb, length, nat_eq, none, not, ok, option_text_eq, require, some, text, text_eq, true,
  ℕ, ◌&&◌, ◌++◌, ◌==◌, ◌>>=◌, ◌>>◌, ◌||◌, ◌∷◌,
}

unfoldable pub insert_text : Text → List Text → List Text
insert_text t [] = t ∷ []
insert_text t (u ∷ us) = if text_gt t u then u ∷ insert_text t us else t ∷ u ∷ us

-- `xs.sort()`, and `ORDER BY app_name`
unfoldable pub sort_texts : List Text → List Text
unfolding insert_text
sort_texts [] = []
sort_texts (t ∷ ts) = insert_text t (sort_texts ts)

abbrev pub is_letter : ℕ → Bool
is_letter c = (leb b'A' c && leb c b'Z') || (leb b'a' c && leb c b'z')

unfoldable pub is_name_start : ℕ → Bool
unfolding is_digit
is_name_start c = is_letter c || is_digit c

unfoldable pub is_name_part : ℕ → Bool
unfolding is_name_start
is_name_part c = is_name_start c || (c == b'.' || (c == b'_' || c == b'-'))

-- `validateAppName`
unfoldable pub is_app_name : Text → Bool
unfolding is_name_start is_name_part
is_app_name [] = false
is_app_name (c ∷ t) = is_name_start c && (leb (length t) 127 && all is_name_part t)

unfoldable pub has_duplicate : List Text → Bool
has_duplicate [] = false
has_duplicate (t ∷ ts) = includes ts t || has_duplicate ts

abbrev pub maximum_applications : ℕ
maximum_applications = 100

unfoldable pub validate_applications : List Text → Result KeyError (List Text)
unfolding is_app_name sort_texts has_duplicate
validate_applications applications = do
  require (not (is_empty applications) && leb (length applications) maximum_applications)
      grants_out_of_range
  require (all is_app_name applications) invalid_application_name
  require (not (has_duplicate (sort_texts applications))) duplicate_grants
  ok (sort_texts applications)

-- every name is that of a registered application that is ready
abbrev pub is_ready : List Application → Text → Bool
is_ready applications app_name =
    any
      (λ (a : Application).
        a.app_name == app_name && (a.status == text "ready" && leb 1 a.schema_version))
      applications

pub record CreateKey : Type 0 where
  pub name : Text
  pub applications : List Text
  pub preset : Text
  pub expires_at : Option ℕ

abbrev pub grants_to : Text → List Text → List Grant
grants_to key_id [] = []
grants_to key_id (a ∷ rest) = record { key_id = key_id; app_name = a } ∷ grants_to key_id rest

abbrev pub is_preset : Option Preset → Bool
is_preset none = false
is_preset (some p) = true

-- `create`, with the identifier and the secret that `generateApiKey` draws
unfoldable pub create :
    (Text → Text) → Text → Text → CreateKey → ℕ → Database → Result KeyError (Database × Text)
unfolding valid_api_key_name validate_applications parse_preset
create digest key_id secret input now db = do
  require (valid_api_key_name input.name) invalid_key_name
  require (is_preset (parse_preset input.preset)) unknown_preset
  apps ← validate_applications input.applications
  require (is_open input.expires_at now) invalid_expiry
  require (all (is_ready db.applications) apps) application_not_ready
  ok (
    record db {
      keys =
          db.keys
          ++ record {
            key_id = key_id;
            name = input.name;
            secret_hash = digest secret;
            preset = input.preset;
            created_at = now;
            expires_at = input.expires_at;
            revoked_at = none;
            last_used_at = none;
          }
            ∷ [];
      grants = db.grants ++ grants_to key_id apps;
      audits =
          db.audits
          ++ record { action = api_key_created; target_id = key_id; before = []; after = apps }
            ∷ [];
    },
    text "ota_ak_" ++ (key_id ++ (text "." ++ secret)),
  )

pub data Change : Type 0 where
  grant ungrant : Change

abbrev pub added_by : Change → List Text → List Text → List Text
added_by grant before apps = filter (λ app. not (includes before app)) apps
added_by ungrant before apps = []

abbrev pub removed_by : Change → List Text → List Text → List Text
removed_by grant before apps = []
removed_by ungrant before apps = filter (includes apps) before

abbrev pub readiness : Change → List Application → List Text → Result KeyError (Unit {0})
readiness grant applications apps = require (all (is_ready applications) apps) application_not_ready
readiness ungrant applications apps = ok tt

abbrev pub audit_action : Change → Action
audit_action grant = api_key_applications_granted
audit_action ungrant = api_key_applications_ungranted

unfoldable pub require_active : ℕ → Option Key → Result KeyError (Unit {0})
require_active now none = err key_not_found
require_active now (some k) = require (is_active now k) key_not_active

-- the key's applications after a change of those that it had
abbrev pub changed_names : Change → List Text → List Text → List Text
changed_names change before apps =
    let removed = removed_by change before apps in
    sort_texts (filter (λ app. not (includes removed app)) before ++ added_by change before apps)

-- the inserted and the deleted rows, and the audit where there are any
abbrev pub changed_database : Change → Text → List Text → List Text → Database → Database
changed_database change key_id before apps db =
    let added = added_by change before apps in
    let removed = removed_by change before apps in
    record db {
      grants =
          filter (λ (g : Grant). not (g.key_id == key_id && includes removed g.app_name)) db.grants
          ++ grants_to key_id added;
      audits =
          if is_empty added && is_empty removed
          then db.audits
          else db.audits
            ++ record {
              action = audit_action change;
              target_id = key_id;
              before = before;
              after = changed_names change before apps;
            }
              ∷ [];
    }

unfoldable pub write_change :
    Change → Text → List Text → List Text → Database → Result KeyError (Database × List Text)
unfolding sort_texts
write_change change key_id before apps db = do
  require (leb (length (changed_names change before apps)) maximum_applications) too_many_grants
  readiness change db.applications apps
  ok (changed_database change key_id before apps db, changed_names change before apps)

-- `changeApplications`: the database after it, and the key's applications
unfoldable pub change_applications :
    Change → Text → List Text → ℕ → Database → Result KeyError (Database × List Text)
unfolding validate_applications require_active write_change find_key granted
change_applications change key_id applications now db = do
  require (is_key_id key_id) invalid_key_id
  apps ← validate_applications applications
  require_active now (find_key key_id db.keys)
  write_change change key_id (sort_texts (granted key_id db.grants)) apps db

unfoldable pub revoke_key : Text → ℕ → List Key → List Key
revoke_key key_id now [] = []
revoke_key key_id now (k ∷ ks) =
    (if k.key_id == key_id then record k { revoked_at = some now } else k)
    ∷ revoke_key key_id now ks

unfoldable pub revoke_found : Text → ℕ → Database → Option Key → Result KeyError Database
unfolding revoke_key
revoke_found key_id now db none = err key_not_found
revoke_found key_id now db (some k) = ok (
    if is_null k.revoked_at
    then record db {
      keys = revoke_key key_id now db.keys;
      audits =
          db.audits
          ++ record { action = api_key_revoked; target_id = key_id; before = []; after = [] } ∷ [];
    }
    else db)

unfoldable pub revoke : Text → ℕ → Database → Result KeyError Database
unfolding revoke_found find_key
revoke key_id now db = do
  require (is_key_id key_id) invalid_key_id
  revoke_found key_id now db (find_key key_id db.keys)
