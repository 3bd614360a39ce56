-- ===== src/Audience/Normalizing.antt =====
-- src/releases/release-audience.ts: the audience that a release takes from a request.
use ota_api.Contracts.Releases.{ReleaseScope, allowlist, public}
use ota_api.Contracts.UserId.{user_id_matches_context}
use ota_api.Prelude.{
  >>=-eq-ok, All, All-In, Bool, Bool-cases, In, In_of_includes, List, Option, Result, Text, [], add,
  any, any-eq-true_from, ap, arith, false, includes, includes-add, includes-append, includes_of_In,
  inl, inr, is_empty, leb, length, ltb, map, nat_eq, none, not, ok, option_text_eq, refl, require,
  require-eq-ok, some, subst, sym, text_eq, to_set, trim, true, ℕ, ◌&&◌, ◌++◌, ◌>>◌, ◌||◌, ◌∙◌, ◌∷◌,
  ◌≡◌,
}

-- src/contracts/release-limits.ts
abbrev pub max_release_users : ℕ
max_release_users = 5000

pub data AudienceError : Type 0 where
  too_many_users invalid_identifier public_with_users : AudienceError
  foreign_user : Text → AudienceError

pub record ReleaseAudienceInput : Type 0 where
  pub app_name : Text
  pub platforms : List Text
  pub release_scope : Option ReleaseScope
  pub user_ids : Option (List Text)

pub record NormalizedReleaseAudience : Type 0 where
  pub release_scope : ReleaseScope
  pub user_ids : List Text

-- the defaults of absent fields
abbrev pub scope_or_public : Option ReleaseScope → ReleaseScope
scope_or_public none = public
scope_or_public (some s) = s

abbrev pub users_or_empty : Option (List Text) → List Text
users_or_empty none = []
users_or_empty (some xs) = xs

abbrev pub is_public : ReleaseScope → Bool
is_public public = true
is_public allowlist = false

-- `!userId || userId.length > 191`
abbrev pub is_invalid : Text → Bool
is_invalid user_id = is_empty user_id || ltb 191 (length user_id)

-- the loop over the users: the first one without a platform is thrown
unfoldable pub require_matches : Text → List Text → List Text → Result AudienceError (Unit {0})
require_matches app_name platforms [] = ok tt
require_matches app_name platforms (user_id ∷ rest) = do
  require (any (user_id_matches_context user_id app_name) platforms) (foreign_user user_id)
  require_matches app_name platforms rest

-- the users are arrays of texts here, as the static type says
unfoldable pub normalize_release_audience :
    ReleaseAudienceInput → Result AudienceError NormalizedReleaseAudience
unfolding require_matches
normalize_release_audience input =
    let release_scope = scope_or_public input.release_scope in
    let parsed = users_or_empty input.user_ids in
    let user_ids = to_set [] (map trim parsed) in
    do
      require (leb (length parsed) max_release_users) too_many_users
      require (not (any is_invalid user_ids)) invalid_identifier
      require (not (is_public release_scope && not (is_empty user_ids))) public_with_users
      require_matches input.app_name (to_set [] input.platforms) user_ids
      ok (record { release_scope = release_scope; user_ids = user_ids })

abbrev pub Distinct : List Text → Type 0
Distinct [] = Unit
Distinct (x ∷ xs) = (includes xs x ≡ false) × Distinct xs

Distinct-append :
    (xs : List Text) (x : Text) → includes xs x ≡ false → Distinct xs → Distinct (xs ++ x ∷ [])
Distinct-append [] x h d = (refl, tt)
Distinct-append (y ∷ xs) x h d = (
  ground (arith, h, d.0, includes-append xs (x ∷ []) y, text_eq.beq_iff x y, text_eq.beq_iff y x),
  Distinct-append xs x (ground (arith, h)) d.1,
)

Distinct-to_set : (seen xs : List Text) → Distinct seen → Distinct (to_set seen xs)
unfolding to_set add
Distinct-to_set seen [] d = d
Distinct-to_set seen (x ∷ xs) d = elim (Bool-cases (includes seen x)) [
  | inl there ↦ rw there (Distinct-to_set seen xs d)
  | inr missing ↦
      rw missing (Distinct-to_set (seen ++ x ∷ []) xs (Distinct-append seen x missing d))
]

pub includes-to_set :
    (seen xs : List Text) (a : Text)
    → includes (to_set seen xs) a ≡ (includes seen a || includes xs a)
unfolding to_set
includes-to_set seen [] a = ground arith
includes-to_set seen (x ∷ xs) a =
    ground (arith, includes-to_set (add x seen) xs a, includes-add x a seen)

require_matches-eq-ok :
    (app_name : Text) (platforms user_ids : List Text) (u : Unit {0})
    → require_matches app_name platforms user_ids ≡ ok u
    → All (λ user_id. any (user_id_matches_context user_id app_name) platforms ≡ true) user_ids
unfolding require_matches
require_matches-eq-ok app_name platforms [] u h = tt
require_matches-eq-ok app_name platforms (x ∷ xs) u h =
    let (v, e, r) =
      >>=-eq-ok (require (any (user_id_matches_context x app_name) platforms) (foreign_user x)) _
        h in
    (require-eq-ok _ (foreign_user x) v e, require_matches-eq-ok app_name platforms xs u r)

-- What a release may be published with.
pub record IsNormal (input : ReleaseAudienceInput) (r : NormalizedReleaseAudience) : Type 0 where
  pub scope : r.release_scope ≡ scope_or_public input.release_scope
  pub listed :
      (a : Text) → includes r.user_ids a ≡ includes (map trim (users_or_empty input.user_ids)) a
  pub distinct : Distinct r.user_ids
  pub valid : any is_invalid r.user_ids ≡ false
  pub open_to_all : r.release_scope ≡ public → r.user_ids ≡ []
  pub own :
      (a : Text)
      → In a r.user_ids
      → (platform : Text) × In platform input.platforms
        × (user_id_matches_context a input.app_name platform ≡ true)

public_empty :
    (s : ReleaseScope) (xs : List Text)
    → not (is_public s && not (is_empty xs)) ≡ true
    → s ≡ public
    → xs ≡ []
public_empty s [] h e = refl
public_empty s (x ∷ xs) h e = absurd (cc (h, ap is_public e))

-- An audience that is accepted has the requested scope, public by default, and exactly the requested
-- users, trimmed, each once, each nonempty and of at most 191 code units, each of the release's
-- application and of one of its platforms; a public release has none.
pub normalize_release_audience-IsNormal :
    (input : ReleaseAudienceInput) (r : NormalizedReleaseAudience)
    → normalize_release_audience input ≡ ok r
    → IsNormal input r
unfolding normalize_release_audience
normalize_release_audience-IsNormal input r h =
    let s = scope_or_public input.release_scope in
    let users = to_set [] (map trim (users_or_empty input.user_ids)) in
    let (_, _, h1) =
      >>=-eq-ok
        (require (leb (length (users_or_empty input.user_ids)) max_release_users) too_many_users) _
        h in
    let (u, e, h2) = >>=-eq-ok (require (not (any is_invalid users)) invalid_identifier) _ h1 in
    let (v, f, h3) =
      >>=-eq-ok (require (not (is_public s && not (is_empty users))) public_with_users) _ h2 in
    let (w, g, h4) =
      >>=-eq-ok (require_matches input.app_name (to_set [] input.platforms) users) _ h3 in
    let p : record { release_scope = s; user_ids = users } ≡ r = cc h4 in
    subst (IsNormal input) p (record {
      scope = refl;
      listed = λ a. includes-to_set [] (map trim (users_or_empty input.user_ids)) a;
      distinct = Distinct-to_set [] (map trim (users_or_empty input.user_ids)) tt;
      valid = ground (arith, require-eq-ok (not (any is_invalid users)) invalid_identifier u e);
      open_to_all = public_empty s users (require-eq-ok _ public_with_users v f);
      own = λ a i.
          let (platform, m, q) =
            any-eq-true_from (user_id_matches_context a input.app_name) (to_set [] input.platforms)
              (All-In
                (λ user_id.
                  any (user_id_matches_context user_id input.app_name) (to_set [] input.platforms)
                  ≡ true)
                a users (require_matches-eq-ok input.app_name (to_set [] input.platforms) users w g)
                i) in
          (
            platform,
            In_of_includes input.platforms platform
                (sym (includes-to_set [] input.platforms platform) ∙ includes_of_In _ platform m),
            q,
          );
    })
