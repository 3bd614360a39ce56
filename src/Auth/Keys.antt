-- ===== src/Auth/Keys.antt =====
-- src/auth/api-key.policy.ts and src/auth/api-key.service.ts: what an access key permits, and how a
-- token is taken for a key.
pub mod Management
pub mod Credentials
pub mod Grants
pub mod Issuing
mod Tests
use ota_api.Contracts.Version.{is_digit}
use ota_api.Prelude.{
  Bool, List, Option, Result, Text, [], all, any, drop, err, false, filter, if◌then◌else◌, includes,
  is_empty, leb, length, ltb, nat_eq, none, not, ok, option_text_eq, require, slice, some,
  starts_with, suc, text, text_eq, to_set, trim, true, zero, ℕ, ◌&&◌, ◌++◌, ◌==◌, ◌>>=◌, ◌>>◌, ◌||◌,
  ◌∷◌,
}

pub data Permission : Type 0 where
  releases_read releases_write telemetry_read tasks_read audit_read messages_read messages_send :
      Permission

pub data Preset : Type 0 where
  publisher observer messenger full : Preset

-- the keys of `apiKeyPresets`
abbrev pub preset_name : Preset → Text
preset_name publisher = text "publisher"
preset_name observer = text "observer"
preset_name messenger = text "messenger"
preset_name full = text "full"

-- `isApiKeyPreset`, with the preset that the name stands for
unfoldable pub parse_preset : Text → Option Preset
parse_preset t =
    if t == preset_name publisher
    then some publisher
    else if t == preset_name observer
    then some observer
    else if t == preset_name messenger
    then some messenger
    else if t == preset_name full
    then some full
    else none

-- the arrays of `apiKeyPresets`, as membership
unfoldable pub preset_includes : Preset → Permission → Bool
preset_includes publisher releases_read = true
preset_includes publisher releases_write = true
preset_includes publisher tasks_read = true
preset_includes observer releases_read = true
preset_includes observer telemetry_read = true
preset_includes observer tasks_read = true
preset_includes observer audit_read = true
preset_includes messenger messages_read = true
preset_includes messenger messages_send = true
preset_includes full p = true
preset_includes _ p = false

unfoldable pub is_control : ℕ → Bool
is_control c = ltb c 32 || c == 127

unfoldable pub valid_api_key_name : Text → Bool
unfolding is_control
valid_api_key_name value =
    not (is_empty (trim value)) && (leb (length value) 128 && not (any is_control value))

pub record Principal : Type 0 where
  pub key_id : Text
  pub name : Text
  pub preset : Preset
  pub applications : List Text

unfoldable pub permits : Principal → Text → Permission → Bool
unfolding preset_includes
permits principal app_name permission =
    includes principal.applications app_name && preset_includes principal.preset permission

-- The character classes of the patterns.
unfoldable pub is_hex : ℕ → Bool
unfolding is_digit
is_hex c = is_digit c || (leb b'a' c && leb c b'f')

unfoldable pub is_variant : ℕ → Bool
is_variant c = c == b'8' || (c == b'9' || (c == b'a' || c == b'b'))

unfoldable pub is_url_safe : ℕ → Bool
unfolding is_digit
is_url_safe c =
    (leb b'A' c && leb c b'Z')
    || ((leb b'a' c && leb c b'z') || (is_digit c || (c == b'_' || c == b'-')))

-- a text whose characters are one from each class, in order
unfoldable pub matches_each : List (ℕ → Bool) → Text → Bool
matches_each [] [] = true
matches_each (p ∷ ps) (c ∷ t) = p c && matches_each ps t
matches_each _ _ = false

abbrev pub times : ℕ → (ℕ → Bool) → List (ℕ → Bool)
times zero p = []
times (suc n) p = p ∷ times n p

abbrev pub only : ℕ → List (ℕ → Bool)
only c = (λ d. d == c) ∷ []

-- `keyIdPattern`
abbrev pub key_id_classes : List (ℕ → Bool)
key_id_classes =
    times 8 is_hex
    ++ only b'-'
    ++ times 4 is_hex
    ++ only b'-'
    ++ only b'4'
    ++ times 3 is_hex
    ++ only b'-'
    ++ times 1 is_variant
    ++ times 3 is_hex
    ++ only b'-'
    ++ times 12 is_hex

unfoldable pub is_key_id : Text → Bool
unfolding matches_each is_hex is_variant
is_key_id t = matches_each key_id_classes t

-- the groups of `tokenPattern`, between the fixed texts
unfoldable pub token_parts :
    (is_prefixed : Bool) (key_id separator secret : Text) → Option (Text × Text)
unfolding is_key_id is_url_safe
token_parts is_prefixed key_id separator secret =
    if is_prefixed
      && (is_key_id key_id
          && (separator == text "." && (length secret == 43 && all is_url_safe secret)))
    then some (key_id, secret)
    else none

-- `tokenPattern.exec`: the identifier and the secret
unfoldable pub parse_token : Text → Option (Text × Text)
unfolding token_parts
parse_token token =
    token_parts (starts_with token (text "ota_ak_")) (slice 7 43 token) (slice 43 44 token)
      (drop 44 token)

-- A row of `ota_api_keys`; a time is in milliseconds.
pub record Key : Type 0 where
  pub key_id : Text
  pub name : Text
  pub secret_hash : Text
  pub preset : Text
  pub created_at : ℕ
  pub expires_at : Option ℕ
  pub revoked_at : Option ℕ
  pub last_used_at : Option ℕ

-- A row of `ota_api_key_applications`.
pub record Grant : Type 0 where
  pub key_id : Text
  pub app_name : Text

-- A row of `ota_applications`.
pub record Application : Type 0 where
  pub app_name : Text
  pub status : Text
  pub schema_version : ℕ

pub data Action : Type 0 where
  api_key_created api_key_applications_granted api_key_applications_ungranted api_key_revoked :
      Action

-- The global audit of a change of a key: the action, the key, and its grants before and after.
pub record Audit : Type 0 where
  pub action : Action
  pub target_id : Text
  pub before : List Text
  pub after : List Text

pub record Database : Type 0 where
  pub keys : List Key
  pub grants : List Grant
  pub applications : List Application
  pub audits : List Audit

pub data KeyError : Type 0 where
  invalid_access_key invalid_key_id invalid_key_name unknown_preset invalid_expiry : KeyError
  grants_out_of_range invalid_application_name duplicate_grants too_many_grants : KeyError
  application_not_ready key_not_found key_not_active : KeyError

-- `k.revoked_at IS NULL AND (k.expires_at IS NULL OR k.expires_at > now)`
abbrev pub is_open : Option ℕ → ℕ → Bool
is_open none now = true
is_open (some t) now = ltb now t

abbrev pub is_null : Option ℕ → Bool
is_null none = true
is_null (some t) = false

abbrev pub is_active : ℕ → Key → Bool
is_active now k = is_null k.revoked_at && is_open k.expires_at now

unfoldable pub find_key : Text → List Key → Option Key
find_key key_id [] = none
find_key key_id (k ∷ ks) = if k.key_id == key_id then some k else find_key key_id ks

-- the grants of a key
unfoldable pub granted : Text → List Grant → List Text
granted key_id [] = []
granted key_id (g ∷ gs) =
    if g.key_id == key_id then g.app_name ∷ granted key_id gs else granted key_id gs

abbrev pub is_registered : List Application → Text → Bool
is_registered applications app_name = any (λ (a : Application). a.app_name == app_name) applications

-- The row that the query joins for a token's key. `digest` is the hexadecimal SHA-256 of the secret.
unfoldable pub authenticate_preset :
    (Text → Text) → Database → ℕ → Text → Key → Option Preset → Result KeyError Principal
unfolding granted
authenticate_preset digest db now secret k none = err invalid_access_key
authenticate_preset digest db now secret k (some preset) = do
  require (is_active now k) invalid_access_key
  require (length k.secret_hash == 64 && all is_hex k.secret_hash) invalid_access_key
  require (k.secret_hash == digest secret) invalid_access_key
  ok (record {
    key_id = k.key_id;
    name = k.name;
    preset = preset;
    applications = to_set [] (filter (is_registered db.applications) (granted k.key_id db.grants));
  })

unfoldable pub authenticate_key :
    (Text → Text) → Database → ℕ → Text → Option Key → Result KeyError Principal
unfolding parse_preset authenticate_preset
authenticate_key digest db now secret none = err invalid_access_key
authenticate_key digest db now secret (some k) =
    authenticate_preset digest db now secret k (parse_preset k.preset)

unfoldable pub authenticate_token :
    (Text → Text) → Database → ℕ → Option (Text × Text) → Result KeyError Principal
unfolding authenticate_key
authenticate_token digest db now none = err invalid_access_key
authenticate_token digest db now (some (key_id, secret)) =
    authenticate_key digest db now secret (find_key key_id db.keys)

unfoldable pub authenticate : (Text → Text) → Database → ℕ → Text → Result KeyError Principal
unfolding authenticate_token
authenticate digest db now token = authenticate_token digest db now (parse_token token)
