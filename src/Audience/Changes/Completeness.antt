-- ===== src/Audience/Changes/Completeness.antt =====
-- The parts of an audited change against the audiences before and after it.
use ota_api.Audience.Changes.{
  Change, Part, StoredAudience, Summary, audience_audit_part_size, difference, has_no_scope, marked,
  members, or_one_part, parts_of, plan_audience_change, stored_audience_invalid, with_mark,
  plan_sets,
}
use ota_api.Audience.Normalizing.{includes-to_set, is_invalid, max_release_users}
use ota_api.Auth.Keys.Grants.{includes-filter, includes-sort_texts}
use ota_api.Prelude.{
  >>=-eq-ok, All, Bool, List, Text, [], any, ap, arith, drop, false, filter, includes, is_empty,
  leb, length, nat_eq, not, ok, option_text_eq, refl, require, subst, suc, sym, take,
  take-append-drop, text_eq, to_set, true, zero, ℕ, ◌&&◌, ◌++◌, ◌+◌, ◌∙◌, ◌∷◌, ◌≡◌, ◌≤◌,
}

-- the users of one kind, of one part and of all parts
abbrev pub part_users : Bool → Part → List Text
part_users true p = p.added_user_ids
part_users false p = p.removed_user_ids

unfoldable pub joined : Bool → List Part → List Text
joined b [] = []
joined b (p ∷ ps) = part_users b p ++ joined b ps

with_mark-append :
    (b : Bool) (xs ys : List Change) → with_mark b (xs ++ ys) ≡ with_mark b xs ++ with_mark b ys
unfolding filter
with_mark-append b [] ys = refl
with_mark-append b (x ∷ xs) ys = ground (arith, with_mark-append b xs ys)

with_mark-marked :
    (xs : List Text)
    → (b : Bool) → (with_mark b (marked b xs) ≡ xs) × (with_mark b (marked (not b) xs) ≡ [])
unfolding filter
with_mark-marked [] b = (refl, refl)
with_mark-marked (x ∷ xs) true = let (p, q) = with_mark-marked xs true in (ap (◌∷◌ x) p, q)
with_mark-marked (x ∷ xs) false = let (p, q) = with_mark-marked xs false in (ap (◌∷◌ x) p, q)

length-with_mark :
    (xs : List Change) → length (with_mark true xs) + length (with_mark false xs) ≡ length xs
unfolding filter
length-with_mark [] = omega arith
length-with_mark (x ∷ xs) = ground (arith, length-with_mark xs)

length-take-le : {A : Type 0} (n : ℕ) (xs : List A) → length (take n xs) ≤ n
length-take-le zero xs = omega arith
length-take-le (suc n) [] = omega arith
length-take-le (suc n) (x ∷ xs) = omega (arith, length-take-le n xs)

length-drop-le : {A : Type 0} (n : ℕ) (xs : List A) → length (drop n xs) ≤ length xs
length-drop-le zero xs = omega arith
length-drop-le (suc n) [] = omega arith
length-drop-le (suc n) (x ∷ xs) = omega (arith, length-drop-le n xs)

-- enough fuel loses no change
joined-parts_of :
    (b : Bool) (fuel : ℕ) (changes : List Change)
    → length changes ≤ fuel
    → joined b (parts_of fuel changes) ≡ with_mark b changes
unfolding joined parts_of filter
joined-parts_of b zero [] h = refl
joined-parts_of b zero (c ∷ cs) h = absurd (omega (arith, h))
joined-parts_of b (suc fuel) [] h = refl
joined-parts_of true (suc fuel) (c ∷ cs) h =
    ap (λ r. with_mark true (take audience_audit_part_size (c ∷ cs)) ++ r)
      (joined-parts_of true fuel (drop audience_audit_part_size (c ∷ cs))
        (omega (arith, h, length-drop-le 199 cs)))
    ∙ sym (
        with_mark-append true (take audience_audit_part_size (c ∷ cs))
          (drop audience_audit_part_size (c ∷ cs)))
    ∙ ap (with_mark true) (take-append-drop audience_audit_part_size (c ∷ cs))
joined-parts_of false (suc fuel) (c ∷ cs) h =
    ap (λ r. with_mark false (take audience_audit_part_size (c ∷ cs)) ++ r)
      (joined-parts_of false fuel (drop audience_audit_part_size (c ∷ cs))
        (omega (arith, h, length-drop-le 199 cs)))
    ∙ sym (
        with_mark-append false (take audience_audit_part_size (c ∷ cs))
          (drop audience_audit_part_size (c ∷ cs)))
    ∙ ap (with_mark false) (take-append-drop audience_audit_part_size (c ∷ cs))

abbrev pub IsSmall : Part → Type 0
IsSmall p = length p.added_user_ids + length p.removed_user_ids ≤ audience_audit_part_size

IsSmall-parts_of : (fuel : ℕ) (changes : List Change) → All IsSmall (parts_of fuel changes)
unfolding parts_of
IsSmall-parts_of zero changes = tt
IsSmall-parts_of (suc fuel) [] = tt
IsSmall-parts_of (suc fuel) (c ∷ cs) =
    let chunk = take audience_audit_part_size (c ∷ cs) in
    (
      omega (arith, length-with_mark chunk, length-take-le audience_audit_part_size (c ∷ cs)),
      IsSmall-parts_of fuel (drop audience_audit_part_size (c ∷ cs)),
    )

joined-or_one_part : (b : Bool) (ps : List Part) → joined b (or_one_part ps) ≡ joined b ps
unfolding joined
joined-or_one_part true [] = refl
joined-or_one_part false [] = refl
joined-or_one_part b (p ∷ ps) = refl

IsSmall-or_one_part : (ps : List Part) → All IsSmall ps → All IsSmall (or_one_part ps)
IsSmall-or_one_part [] h = (omega arith, tt)
IsSmall-or_one_part (p ∷ ps) h = h

-- The parts of a plan: what they add and take away, how large they are and how they are counted.
pub record IsComplete (before after : StoredAudience) (summary : Summary) (parts : List Part)
    : Type 0 where
  pub added :
      (a : Text)
      → includes (joined true parts) a
        ≡ (includes after.user_ids a && not (includes before.user_ids a))
  pub removed :
      (a : Text)
      → includes (joined false parts) a
        ≡ (includes before.user_ids a && not (includes after.user_ids a))
  pub small : All IsSmall parts
  pub counted :
      (summary.added_count ≡ length (joined true parts))
      × (summary.removed_count ≡ length (joined false parts))
      × (summary.part_count ≡ length parts)

members-eq-ok :
    (s : StoredAudience) (users : List Text)
    → members s ≡ ok users
    → (a : Text) → includes users a ≡ includes s.user_ids a
unfolding members
members-eq-ok s users h a =
    let (_, _, e) =
      >>=-eq-ok
        (require
          (leb (length s.user_ids) max_release_users
            && (not (any is_invalid s.user_ids)
                && not (has_no_scope s.scope && not (is_empty s.user_ids))))
          stored_audience_invalid)
        _ h in
    let p : to_set [] s.user_ids ≡ users = cc e in
    ap (λ us. includes us a) (sym p) ∙ includes-to_set [] s.user_ids a

includes-difference :
    (xs ys : List Text) (a : Text)
    → includes (difference xs ys) a ≡ (includes xs a && not (includes ys a))
includes-difference xs ys a =
    includes-sort_texts (filter (λ user_id. not (includes ys user_id)) xs) a
    ∙ ground (arith, includes-filter (λ user_id. not (includes ys user_id)) xs a)

append-nil : (xs : List Text) → xs ++ [] ≡ xs
append-nil [] = refl
append-nil (x ∷ xs) = ap (◌∷◌ x) (append-nil xs)

module _ (added removed : List Text) where
  abbrev changes_of : List Change
  changes_of = marked true added ++ marked false removed

  joined_added : joined true (or_one_part (parts_of (length changes_of) changes_of)) ≡ added
  joined_added =
      joined-or_one_part true (parts_of (length changes_of) changes_of)
      ∙ joined-parts_of true (length changes_of) changes_of (omega arith)
      ∙ with_mark-append true (marked true added) (marked false removed)
      ∙ rw ((with_mark-marked added true).0, (with_mark-marked removed true).1) (append-nil added)

  joined_removed : joined false (or_one_part (parts_of (length changes_of) changes_of)) ≡ removed
  joined_removed =
      joined-or_one_part false (parts_of (length changes_of) changes_of)
      ∙ joined-parts_of false (length changes_of) changes_of (omega arith)
      ∙ with_mark-append false (marked true added) (marked false removed)
      ∙ rw ((with_mark-marked added false).1, (with_mark-marked removed false).0) refl

plan_sets-IsComplete :
    (before after : StoredAudience) (previous next : List Text)
    → ((a : Text) → includes previous a ≡ includes before.user_ids a)
    → ((a : Text) → includes next a ≡ includes after.user_ids a)
    → let plan = plan_sets before.scope after.scope previous next in
      IsComplete before after plan.0 plan.1
plan_sets-IsComplete before after previous next p q =
    let added = difference next previous in
    let removed = difference previous next in
    let a = joined_added added removed in
    let r = joined_removed added removed in
    record {
      added = λ u.
          ap (λ us. includes us u) a ∙ includes-difference next previous u ∙ rw (p u, q u) refl;
      removed = λ u.
          ap (λ us. includes us u) r ∙ includes-difference previous next u ∙ rw (p u, q u) refl;
      small =
          IsSmall-or_one_part _
            (IsSmall-parts_of (length (changes_of added removed)) (changes_of added removed));
      counted = (ap length (sym a), ap length (sym r), refl);
    }

-- A planned change loses nothing: its parts, together, add exactly the users that only the later
-- audience has and take away exactly those that only the earlier one has; no part holds more than 200,
-- and the summary counts the users and the parts.
pub plan_audience_change-IsComplete :
    (before after : StoredAudience) (summary : Summary) (parts : List Part)
    → plan_audience_change before after ≡ ok (summary, parts)
    → IsComplete before after summary parts
unfolding plan_audience_change
plan_audience_change-IsComplete before after summary parts h =
    let (previous, p, h1) = >>=-eq-ok (members before) _ h in
    let (next, q, h2) = >>=-eq-ok (members after) _ h1 in
    let e : plan_sets before.scope after.scope previous next ≡ (summary, parts) = cc h2 in
    subst (λ (plan : Summary × List Part). IsComplete before after plan.0 plan.1) e
      (plan_sets-IsComplete before after previous next (members-eq-ok before previous p)
        (members-eq-ok after next q))
