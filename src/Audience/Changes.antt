-- ===== src/Audience/Changes.antt =====
-- src/audit/audience-change.ts: the audit of a changed audience, in parts of bounded size.
pub mod Completeness
use ota_api.Contracts.Releases.{ReleaseScope}
use ota_api.Audience.Normalizing.{is_invalid, max_release_users}
use ota_api.Auth.Keys.Management.{sort_texts}
use ota_api.Prelude.{
  Bool, List, Option, Result, Text, [], any, drop, false, filter, if◌then◌else◌, includes, is_empty,
  leb, length, map, nat_eq, none, not, ok, option_text_eq, require, some, suc, take, text_eq,
  to_set, true, zero, ℕ, ◌&&◌, ◌++◌, ◌>>=◌, ◌>>◌, ◌∷◌,
}

abbrev pub audience_audit_part_size : ℕ
audience_audit_part_size = 200

pub record StoredAudience : Type 0 where
  pub scope : Option ReleaseScope
  pub user_ids : List Text

pub data ChangeError : Type 0 where
  stored_audience_invalid : ChangeError

abbrev pub has_no_scope : Option ReleaseScope → Bool
has_no_scope none = true
has_no_scope (some s) = false

-- the static type leaves no other scope and no other identifier than a text
unfoldable pub members : StoredAudience → Result ChangeError (List Text)
members snapshot = do
  require
      (leb (length snapshot.user_ids) max_release_users
        && (not (any is_invalid snapshot.user_ids)
            && not (has_no_scope snapshot.scope && not (is_empty snapshot.user_ids))))
      stored_audience_invalid
  ok (to_set [] snapshot.user_ids)

pub record Change : Type 0 where
  pub user_id : Text
  pub added : Bool

pub record Part : Type 0 where
  pub added_user_ids : List Text
  pub removed_user_ids : List Text

abbrev pub marked : Bool → List Text → List Change
marked b xs = map (λ user_id. record { user_id = user_id; added = b }) xs

abbrev pub with_mark : Bool → List Change → List Text
with_mark b xs =
    map (λ (c : Change). c.user_id) (filter (λ (c : Change). if b then c.added else not c.added) xs)

-- the loop by offsets, which takes a part off the front at each turn; as much fuel as changes is enough
unfoldable pub parts_of : ℕ → List Change → List Part
parts_of zero changes = []
parts_of (suc fuel) [] = []
parts_of (suc fuel) (c ∷ cs) =
    let chunk = take audience_audit_part_size (c ∷ cs) in
    record { added_user_ids = with_mark true chunk; removed_user_ids = with_mark false chunk }
    ∷ parts_of fuel (drop audience_audit_part_size (c ∷ cs))

abbrev pub or_one_part : List Part → List Part
or_one_part [] = record { added_user_ids = []; removed_user_ids = [] } ∷ []
or_one_part (p ∷ ps) = p ∷ ps

pub record Summary : Type 0 where
  pub scope_before : Option ReleaseScope
  pub scope_after : Option ReleaseScope
  pub user_count_before : ℕ
  pub user_count_after : ℕ
  pub added_count : ℕ
  pub removed_count : ℕ
  pub part_count : ℕ

abbrev pub difference : List Text → List Text → List Text
difference xs ys = sort_texts (filter (λ user_id. not (includes ys user_id)) xs)

-- the plan of two sets of users
abbrev pub plan_sets :
    (scope_before scope_after : Option ReleaseScope) (previous next : List Text)
    → Summary × List Part
plan_sets scope_before scope_after previous next =
    let added = difference next previous in
    let removed = difference previous next in
    let changes = marked true added ++ marked false removed in
    let parts = or_one_part (parts_of (length changes) changes) in
    (
      record {
        scope_before = scope_before;
        scope_after = scope_after;
        user_count_before = length previous;
        user_count_after = length next;
        added_count = length added;
        removed_count = length removed;
        part_count = length parts;
      },
      parts,
    )

unfoldable pub plan_audience_change :
    StoredAudience → StoredAudience → Result ChangeError (Summary × List Part)
unfolding members parts_of sort_texts
plan_audience_change before after = do
  previous ← members before
  next ← members after
  ok (plan_sets before.scope after.scope previous next)
