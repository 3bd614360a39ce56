-- ===== src/Auth/Keys/Issuing.antt =====
-- A key that was just created against the token that was handed out.
use ota_api.Auth.Keys.{
  Key, find_key, is_key_id, is_url_safe, key_id_classes, matches_each, parse_token, Application,
  is_registered, token_parts, Database, Principal, authenticate_key, authenticate_preset, granted,
  is_active, is_hex, parse_preset, application_not_ready, authenticate, authenticate_token,
  invalid_expiry, invalid_key_name, is_open, unknown_preset, valid_api_key_name, api_key_created,
}
use ota_api.Auth.Keys.Management.{
  is_ready, is_preset, CreateKey, create, validate_applications, grants_to,
}
use ota_api.Audience.Normalizing.{includes-to_set}
use ota_api.Auth.Keys.Grants.{
  includes-filter, includes-granted-append, includes-granted-grants_to, validated,
}
use ota_api.Prelude.{
  >>=-eq-ok, All-In, Bool, Bool-cases, In_of_includes, List, Option-cases, Text, [], all,
  all-eq-true_from, any-eq-true_from, any-eq-true_to, ap, arith, drop, drop-length-append,
  drop-suc-length-append, filter, includes, inl, inr, leb, length, list_beq, nat_eq, none, ok,
  option_text_eq, refl, require, require-eq-ok, some, starts_with, subst, suc, sym, take,
  take-length-append, text, text_eq, to_set, true, ℕ, ◌&&◌, ◌++◌, ◌==◌, ◌∙◌, ◌∷◌, ◌≡◌,
}

matches_each-length :
    (ps : List (ℕ → Bool)) (t : Text) → matches_each ps t ≡ true → length t ≡ length ps
unfolding matches_each
matches_each-length [] [] h = refl
matches_each-length [] (c ∷ t) h = absurd (cc h)
matches_each-length (p ∷ ps) [] h = absurd (cc h)
matches_each-length (p ∷ ps) (c ∷ t) h = ground (arith, h, matches_each-length ps t)

is_key_id-length : (t : Text) → is_key_id t ≡ true → length t ≡ 36
unfolding is_key_id
is_key_id-length t h = matches_each-length key_id_classes t h

abbrev pub token_of : Text → Text → Text
token_of key_id secret = text "ota_ak_" ++ (key_id ++ (text "." ++ secret))

token_parts-eq-some :
    (key_id secret : Text)
    → is_key_id key_id ≡ true
    → length secret ≡ 43
    → all is_url_safe secret ≡ true
    → token_parts true key_id (text ".") secret ≡ some (key_id, secret)
unfolding token_parts list_beq
token_parts-eq-some key_id secret k l u = ground (arith, k, l, u)

starts_with-append : (p r : Text) → starts_with (p ++ r) p ≡ true
unfolding starts_with
starts_with-append [] [] = refl
starts_with-append [] (c ∷ r) = refl
starts_with-append (c ∷ p) r = ground (arith, starts_with-append p r)

parse_token_of :
    (key_id secret : Text)
    → is_key_id key_id ≡ true
    → length secret ≡ 43
    → all is_url_safe secret ≡ true
    → parse_token (token_of key_id secret) ≡ some (key_id, secret)
unfolding parse_token
parse_token_of key_id secret k l u =
    let n = is_key_id-length key_id k in
    let rest = key_id ++ b'.' ∷ secret in
    let a : take 36 rest ≡ key_id =
      subst (λ m. take m rest ≡ key_id) n (take-length-append key_id (b'.' ∷ secret)) in
    let b : drop 36 rest ≡ b'.' ∷ secret =
      subst (λ m. drop m rest ≡ b'.' ∷ secret) n (drop-length-append key_id (b'.' ∷ secret)) in
    let c : drop 37 rest ≡ secret =
      subst (λ m. drop (suc m) rest ≡ secret) n (drop-suc-length-append key_id secret b'.') in
    ap (λ x. token_parts x (take 36 rest) (take 1 (drop 36 rest)) (drop 37 rest))
      (starts_with-append (text "ota_ak_") rest)
    ∙ ap (λ x. token_parts true x (take 1 (drop 36 rest)) (drop 37 rest)) a
    ∙ ap (λ x. token_parts true key_id (take 1 x) (drop 37 rest)) b
    ∙ ap (λ x. token_parts true key_id (text ".") x) c
    ∙ token_parts-eq-some key_id secret k l u

find_key-append :
    (key_id : Text) (ks : List Key) (k : Key)
    → find_key key_id ks ≡ none
    → (k.key_id == key_id) ≡ true
    → find_key key_id (ks ++ k ∷ []) ≡ some k
unfolding find_key
find_key-append key_id [] k h e = rw e refl
find_key-append key_id (j ∷ ks) k h e = ground (arith, h, e, find_key-append key_id ks k)

-- the applications that authentication finds: those granted that are registered
includes-registered :
    (applications : List Application) (apps : List Text) (a : Text)
    → all (is_ready applications) apps ≡ true
    → (is_registered applications a && includes apps a) ≡ includes apps a
includes-registered applications apps a h = elim (Bool-cases (includes apps a)) [
  | inr missing ↦ ground (arith, missing)
  | inl there ↦
      let ready : is_ready applications a ≡ true =
        All-In (λ t. is_ready applications t ≡ true) a apps
          (all-eq-true_from (is_ready applications) apps h) (In_of_includes apps a there) in
      let (r, m, q) =
        any-eq-true_from
          (λ (r : Application).
            r.app_name == a && (r.status == text "ready" && leb 1 r.schema_version))
          applications ready in
      let registered : is_registered applications a ≡ true =
        any-eq-true_to (λ (x : Application). x.app_name == a) r applications m
          (ground (arith, q)) in
      ground (arith, there, registered)
]

-- the principal that a key stands for
authenticate_key-ok :
    (digest : Text → Text) (db : Database) (later : ℕ) (secret : Text) (k : Key)
    → is_preset (parse_preset k.preset) ≡ true
    → is_active later k ≡ true
    → (length k.secret_hash == 64 && all is_hex k.secret_hash) ≡ true
    → k.secret_hash ≡ digest secret
    → (p : Principal) × (authenticate_key digest db later secret (some k) ≡ ok p)
      × (p.applications
          ≡ to_set [] (filter (is_registered db.applications) (granted k.key_id db.grants)))
unfolding authenticate_key authenticate_preset
authenticate_key-ok digest db later secret k known active hash same =
    elim (Option-cases (parse_preset k.preset)) [
      | inl missing ↦ absurd (cc (known, missing))
      | inr (preset, there) ↦ (
        record {
          key_id = k.key_id;
          name = k.name;
          preset = preset;
          applications =
              to_set [] (filter (is_registered db.applications) (granted k.key_id db.grants));
        },
        rw (there, active, hash, (text_eq.beq_iff k.secret_hash (digest secret)).1 same) refl,
        refl,
      )
    ]

abbrev pub is_sha256 : Text → Bool
is_sha256 hash = length hash == 64 && all is_hex hash

abbrev new_key : (Text → Text) → Text → Text → CreateKey → ℕ → Key
new_key digest key_id secret input now = record {
  key_id = key_id;
  name = input.name;
  secret_hash = digest secret;
  preset = input.preset;
  created_at = now;
  expires_at = input.expires_at;
  revoked_at = none;
  last_used_at = none;
}

-- the database behind the creation
abbrev created : (Text → Text) → Text → Text → CreateKey → ℕ → Database → List Text → Database
created digest key_id secret input now db apps = record db {
  keys = db.keys ++ new_key digest key_id secret input now ∷ [];
  grants = db.grants ++ grants_to key_id apps;
  audits =
      db.audits
      ++ record { action = api_key_created; target_id = key_id; before = []; after = apps } ∷ [];
}

includes-created :
    (key_id : Text) (db : Database) (apps : List Text) (a : Text)
    → granted key_id db.grants ≡ []
    → all (is_ready db.applications) apps ≡ true
    → includes
        (to_set [] (
          filter
            (is_registered db.applications)
            (granted key_id (db.grants ++ grants_to key_id apps))))
        a
      ≡ includes apps a
includes-created key_id db apps a none_before ready =
    includes-to_set []
      (filter (is_registered db.applications) (granted key_id (db.grants ++ grants_to key_id apps)))
      a
    ∙ includes-filter (is_registered db.applications)
        (granted key_id (db.grants ++ grants_to key_id apps)) a
    ∙ ap (λ b. is_registered db.applications a && b)
        (includes-granted-append key_id db.grants (grants_to key_id apps) a
          ∙ rw
              (
                none_before,
                includes-granted-grants_to key_id key_id apps a,
                (text_eq.beq_iff key_id key_id).1 refl,
              )
              refl)
    ∙ includes-registered db.applications apps a ready

-- Where a key is created, with a well-formed identifier that no key or grant has, a well-formed secret
-- and a digest of 64 hexadecimal digits, the token that is returned authenticates until the key
-- expires, and the principal has exactly the applications of the request.
pub create-authenticate :
    (digest : Text → Text) (key_id secret : Text) (input : CreateKey) (now later : ℕ)
    (db after : Database) (token : Text)
    → create digest key_id secret input now db ≡ ok (after, token)
    → is_key_id key_id ≡ true
    → length secret ≡ 43
    → all is_url_safe secret ≡ true
    → is_sha256 (digest secret) ≡ true
    → find_key key_id db.keys ≡ none
    → granted key_id db.grants ≡ []
    → is_open input.expires_at later ≡ true
    → (p : Principal) × (authenticate digest after later token ≡ ok p)
      × ((a : Text) → includes p.applications a ≡ includes input.applications a)
unfolding create authenticate authenticate_token
create-authenticate digest key_id secret input now later db after token h well_formed size safe hash
      unused no_grant open_later =
    let (_, _, h1) = >>=-eq-ok (require (valid_api_key_name input.name) invalid_key_name) _ h in
    let (u, known, h2) =
      >>=-eq-ok (require (is_preset (parse_preset input.preset)) unknown_preset) _ h1 in
    let (apps, v, h3) = >>=-eq-ok (validate_applications input.applications) _ h2 in
    let (_, _, h4) = >>=-eq-ok (require (is_open input.expires_at now) invalid_expiry) _ h3 in
    let (w, ready, h5) =
      >>=-eq-ok (require (all (is_ready db.applications) apps) application_not_ready) _ h4 in
    let k = new_key digest key_id secret input now in
    let d = created digest key_id secret input now db apps in
    let e : d ≡ after = cc h5 in
    let t : token_of key_id secret ≡ token = cc h5 in
    let found : find_key key_id d.keys ≡ some k =
      find_key-append key_id db.keys k unused ((text_eq.beq_iff key_id key_id).1 refl) in
    let (p, q, held) =
      authenticate_key-ok digest d later secret k (require-eq-ok _ unknown_preset u known)
        open_later hash refl in
    (
      p,
      ap (λ x. authenticate_token digest x later (parse_token token)) (sym e)
          ∙ ap (λ x. authenticate_token digest d later (parse_token x)) (sym t)
          ∙ ap (authenticate_token digest d later)
              (parse_token_of key_id secret well_formed size safe)
          ∙ ap (authenticate_key digest d later secret) found
          ∙ q,
      λ a.
          ap (λ xs. includes xs a) held
          ∙ includes-created key_id db apps a no_grant
              (require-eq-ok _ application_not_ready w ready)
          ∙ validated input.applications apps a v,
    )
