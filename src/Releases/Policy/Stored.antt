-- ===== src/Releases/Policy/Stored.antt =====
-- The users of a release that are stored, and those that are read for its audit.
use ota_api.Audience.Changes.{Part, StoredAudience, Summary, members, plan_audience_change}
use ota_api.Audience.Normalizing.{max_release_users}
use ota_api.Contracts.Releases.{ReleaseScope}
use ota_api.Releases.{ReleaseDb, ReleaseRow, ReleaseUser}
use ota_api.Releases.Policy.{
  is_release_user, or_conflict, plan_change, read_audience, read_scope, users_of,
}
use ota_api.Releases.Records.{scope_of}
use ota_api.Prelude.{
  >>=-eq-ok, List, Option, Result, Text, [], ap, arith, err, filter, length, map, nat_eq, none, not,
  ok, option_text_eq, refl, some, suc, sym, take, text_eq, zero, ℕ, ◌++◌, ◌+◌, ◌<◌, ◌∙◌, ◌∷◌, ◌≡◌,
  ◌≤◌,
}

abbrev pub stored : ReleaseScope → List Text → StoredAudience
stored scope xs = record { scope = some scope; user_ids = xs }

abbrev user_ids_of : Text → List ReleaseUser → List Text
user_ids_of release_id us =
    map (λ (u : ReleaseUser). u.user_id) (filter (is_release_user release_id) us)

pub users_of-append :
    (release_id : Text) (us vs : List ReleaseUser)
    → user_ids_of release_id (us ++ vs) ≡ user_ids_of release_id us ++ user_ids_of release_id vs
unfolding filter
users_of-append release_id [] vs = refl
users_of-append release_id (u ∷ us) vs = ground (arith, users_of-append release_id us vs)

pub users_of-deleted :
    (release_id : Text) (us : List ReleaseUser)
    → user_ids_of release_id (filter (λ u. not (is_release_user release_id u)) us) ≡ []
unfolding filter
users_of-deleted release_id [] = refl
users_of-deleted release_id (u ∷ us) = ground (arith, users_of-deleted release_id us)

pub users_of-new :
    (release_id : Text) (now : ℕ) (xs : List Text)
    → user_ids_of release_id (
        map (λ user_id. record { release_id = release_id; user_id = user_id; created_at = now }) xs)
      ≡ xs
unfolding filter
users_of-new release_id now [] = refl
users_of-new release_id now (x ∷ xs) =
    ground (arith, users_of-new release_id now xs, text_eq.beq_iff release_id release_id)

take-all : {A : Type 0} (n : ℕ) (xs : List A) → length (take n xs) < n → take n xs ≡ xs
take-all zero xs h = absurd (omega (arith, h))
take-all (suc n) [] h = refl
take-all (suc n) (x ∷ xs) h = ap (◌∷◌ x) (take-all n xs (omega (arith, h)))

members-length :
    (s : StoredAudience) (users : List Text)
    → members s ≡ ok users
    → length s.user_ids ≤ max_release_users
unfolding members
members-length s users h = ground (arith, h)

or_conflict-eq-ok : {E A : Type 0} (r : Result E A) (a : A) → or_conflict r ≡ ok a → r ≡ ok a
unfolding or_conflict
or_conflict-eq-ok (ok b) a h = cc h
or_conflict-eq-ok (err e) a h = absurd (cc h)

pub planned :
    (before after : StoredAudience) (plan : Summary × List Part)
    → plan_change before after ≡ ok plan
    → plan_audience_change before after ≡ ok plan
unfolding plan_change
planned before after plan h = or_conflict-eq-ok (plan_audience_change before after) plan h

plan-bounded :
    (before after : StoredAudience) (plan : Summary × List Part)
    → plan_audience_change before after ≡ ok plan
    → length before.user_ids ≤ max_release_users
unfolding plan_audience_change
plan-bounded before after plan h =
    let (previous, p, h1) = >>=-eq-ok (members before) _ {end = plan} h in
    members-length before previous p

read_scope-eq-ok :
    (o : Option ReleaseScope) (xs : List Text) (a : StoredAudience)
    → read_scope o xs ≡ ok a
    → (scope : ReleaseScope) × (o ≡ some scope) × (a.user_ids ≡ xs)
read_scope-eq-ok none xs a h = absurd (cc h)
read_scope-eq-ok (some scope) xs a h =
    let r : stored scope xs ≡ a = cc h in
    (scope, refl, ap (λ (t : StoredAudience). t.user_ids) (sym r))

-- What is read is the stored audience, once the plan accepts it.
pub read-whole :
    (release_id : Text) (row : ReleaseRow) (db : ReleaseDb) (before after : StoredAudience)
    (plan : Summary × List Part)
    → read_audience release_id row db ≡ ok before
    → plan_audience_change before after ≡ ok plan
    → before.user_ids ≡ users_of release_id db
unfolding read_audience
read-whole release_id row db before after plan h k =
    let (scope, s, e) =
      read_scope-eq-ok (scope_of row.release_scope)
        (take (max_release_users + 1) (users_of release_id db)) before h in
    e
    ∙ take-all (max_release_users + 1) (users_of release_id db)
        (ground (arith, plan-bounded before after plan k, ap (λ xs. length xs) e))
