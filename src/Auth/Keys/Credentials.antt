-- ===== src/Auth/Keys/Credentials.antt =====
-- What the tokens of a key are good for after a transaction.
use ota_api.Auth.Keys.{
  Database, Key, authenticate, authenticate_key, authenticate_token, find_key, invalid_access_key,
  invalid_key_id, is_key_id, is_null, parse_token, Preset, authenticate_preset,
}
use ota_api.Auth.Keys.Management.{revoke, revoke_found, revoke_key}
use ota_api.Prelude.{
  >>=-eq-ok, Bool-cases, List, Option, Text, [], ap, arith, err, false, inl, inr, nat_eq, none, ok,
  option_text_eq, refl, require, some, sym, text_eq, ℕ, ◌==◌, ◌∙◌, ◌∷◌, ◌≡◌,
}

find_key-revoke_key :
    (key_id : Text) (now : ℕ) (ks : List Key) (k : Key)
    → find_key key_id ks ≡ some k
    → find_key key_id (revoke_key key_id now ks) ≡ some (record k { revoked_at = some now })
unfolding find_key revoke_key
find_key-revoke_key key_id now [] k e = absurd (cc e)
find_key-revoke_key key_id now (j ∷ ks) k e = elim (Bool-cases (j.key_id == key_id)) [
  | inl same ↦
      let p : j ≡ k = ground (arith, same, e) in
      rw (same, same) (ap (λ (i : Key). some (record i { revoked_at = some now })) p)
  | inr other ↦ rw (other, other) (find_key-revoke_key key_id now ks k (ground (arith, other, e)))
]

-- a key that is revoked authenticates nothing
authenticate_preset-revoked :
    (digest : Text → Text) (db : Database) (now : ℕ) (secret : Text) (k : Key) (o : Option Preset)
    → is_null k.revoked_at ≡ false
    → authenticate_preset digest db now secret k o ≡ err invalid_access_key
unfolding authenticate_preset
authenticate_preset-revoked digest db now secret k none e = refl
authenticate_preset-revoked digest db now secret k (some p) e = rw e refl

authenticate_key-revoked :
    (digest : Text → Text) (db : Database) (now : ℕ) (secret : Text) (k : Key)
    → is_null k.revoked_at ≡ false
    → authenticate_key digest db now secret (some k) ≡ err invalid_access_key
unfolding authenticate_key
authenticate_key-revoked digest db now secret k e =
    authenticate_preset-revoked digest db now secret k _ e

revoke_found-refuses :
    (digest : Text → Text) (key_id secret : Text) (now later : ℕ) (db after : Database)
    (o : Option Key)
    → find_key key_id db.keys ≡ o
    → revoke_found key_id now db o ≡ ok after
    → authenticate_key digest after later secret (find_key key_id after.keys)
      ≡ err invalid_access_key
unfolding revoke_found
revoke_found-refuses digest key_id secret now later db after none e h = absurd (cc h)
revoke_found-refuses digest key_id secret now later db after (some k) e h =
    elim (Bool-cases (is_null k.revoked_at)) [
      | inl live ↦
          let p : revoke_key key_id now db.keys ≡ after.keys = ground (arith, live, h) in
          rw (ap (find_key key_id) (sym p) ∙ find_key-revoke_key key_id now db.keys k e) (
            authenticate_key-revoked digest after later secret (record k { revoked_at = some now })
              refl)
      | inr revoked ↦
          let p : db ≡ after = ground (arith, revoked, h) in
          rw (ap (λ (d : Database). find_key key_id d.keys) (sym p) ∙ e)
            (authenticate_key-revoked digest after later secret k revoked)
    ]

-- Once `revoke` succeeds, no token with the key's identifier authenticates, whatever its secret, the
-- digest function and the time: a key revoked before stays so.
pub revoke-authenticate :
    (digest : Text → Text) (key_id token secret : Text) (now later : ℕ) (db after : Database)
    → revoke key_id now db ≡ ok after
    → parse_token token ≡ some (key_id, secret)
    → authenticate digest after later token ≡ err invalid_access_key
unfolding revoke authenticate authenticate_token
revoke-authenticate digest key_id token secret now later db after h parsed =
    let (_, _, e) = >>=-eq-ok (require (is_key_id key_id) invalid_key_id) _ h in
    rw parsed (revoke_found-refuses digest key_id secret now later db after _ refl e)
