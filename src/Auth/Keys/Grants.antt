-- ===== src/Auth/Keys/Grants.antt =====
-- The applications of a key before and after a change of its grants.
use ota_api.Auth.Keys.{
  Grant, granted, Database, find_key, invalid_key_id, is_key_id, too_many_grants, duplicate_grants,
  grants_out_of_range, invalid_application_name,
}
use ota_api.Auth.Keys.Management.{
  Change, added_by, grant, grants_to, insert_text, removed_by, sort_texts, ungrant,
  change_applications, readiness, require_active, validate_applications, changed_database,
  changed_names, has_duplicate, is_app_name, maximum_applications, write_change,
}
use ota_api.Prelude.{
  >>=-eq-ok, Bool, Bool-cases, List, Text, [], all, ap, arith, filter, if◌then◌else◌, includes,
  includes-append, inl, inr, is_empty, leb, length, nat_eq, not, ok, option_text_eq, refl, require,
  sym, text_eq, ℕ, ◌&&◌, ◌++◌, ◌==◌, ◌||◌, ◌∙◌, ◌∷◌, ◌≡◌,
}

includes-insert_text :
    (t : Text) (us : List Text) (a : Text)
    → includes (insert_text t us) a ≡ (t == a || includes us a)
unfolding insert_text
includes-insert_text t [] a = refl
includes-insert_text t (u ∷ us) a = ground (arith, includes-insert_text t us a)

pub includes-sort_texts : (ts : List Text) (a : Text) → includes (sort_texts ts) a ≡ includes ts a
unfolding sort_texts
includes-sort_texts [] a = refl
includes-sort_texts (t ∷ ts) a =
    ground (arith, includes-insert_text t (sort_texts ts) a, includes-sort_texts ts a)

pub includes-filter :
    (p : Text → Bool) (ts : List Text) (a : Text)
    → includes (filter p ts) a ≡ (p a && includes ts a)
unfolding filter
includes-filter p [] a = ground arith
includes-filter p (t ∷ ts) a = elim (Bool-cases (t == a)) [
  | inl same ↦ rw ((text_eq.beq_iff t a).0 same) (ground (arith, includes-filter p ts a))
  | inr other ↦ ground (arith, includes-filter p ts a)
]

pub includes-granted-append :
    (k : Text) (gs hs : List Grant) (a : Text)
    → includes (granted k (gs ++ hs)) a ≡ (includes (granted k gs) a || includes (granted k hs) a)
unfolding granted
includes-granted-append k [] hs a = refl
includes-granted-append k (g ∷ gs) hs a = ground (arith, includes-granted-append k gs hs a)

pub includes-granted-grants_to :
    (k key_id : Text) (ts : List Text) (a : Text)
    → includes (granted k (grants_to key_id ts)) a ≡ (key_id == k && includes ts a)
unfolding granted
includes-granted-grants_to k key_id [] a = ground arith
includes-granted-grants_to k key_id (t ∷ ts) a =
    ground (arith, includes-granted-grants_to k key_id ts a)

-- the grants that a change leaves
abbrev left : Text → List Text → List Grant → List Grant
left key_id removed =
    filter (λ (g : Grant). not (g.key_id == key_id && includes removed g.app_name))

includes-granted-left :
    (k key_id : Text) (removed : List Text) (gs : List Grant) (a : Text)
    → includes (granted k (left key_id removed gs)) a
      ≡ (includes (granted k gs) a && not (key_id == k && includes removed a))
unfolding granted filter
includes-granted-left k key_id removed [] a = refl
includes-granted-left k key_id removed (g ∷ gs) a = elim (Bool-cases (g.app_name == a)) [
  | inl same ↦ rw ((text_eq.beq_iff g.app_name a).0 same) (
      ground (
        arith,
        includes-granted-left k key_id removed gs a,
        text_eq.beq_iff g.key_id k,
        text_eq.beq_iff g.key_id key_id,
        text_eq.beq_iff key_id k,
      ))
  | inr other ↦ ground (arith, includes-granted-left k key_id removed gs a)
]

-- Whether the key holds an application after a change that names `apps`.
abbrev pub holds_after : Change → Bool → Bool → Bool
holds_after grant held named = held || named
holds_after ungrant held named = held && not named

-- the change at the key itself
changed :
    (change : Change) (apps before : List Text) (held : Bool) (a : Text)
    → includes before a ≡ held
    → ((held && not (includes (removed_by change before apps) a))
        || includes (added_by change before apps) a)
      ≡ holds_after change held (includes apps a)
changed grant apps before held a e =
    ground (arith, includes-filter (λ app. not (includes before app)) apps a)
changed ungrant apps before held a e = ground (arith, includes-filter (includes apps) before a)

write_change-eq-ok :
    (change : Change) (key_id : Text) (before apps : List Text) (db after : Database)
    (names : List Text)
    → write_change change key_id before apps db ≡ ok (after, names)
    → (changed_database change key_id before apps db ≡ after)
      × (changed_names change before apps ≡ names)
unfolding write_change
write_change-eq-ok change key_id before apps db after names h =
    let (_, _, h1) =
      >>=-eq-ok
        (require (leb (length (changed_names change before apps)) maximum_applications)
          too_many_grants)
        _ h in
    let (_, _, h2) = >>=-eq-ok (readiness change db.applications apps) _ h1 in (cc h2, cc h2)

includes_after :
    (change : Change) (k key_id : Text) (apps : List Text) (gs : List Grant) (a : Text)
    → let before = sort_texts (granted key_id gs) in
      includes
        (granted k (
          left key_id (removed_by change before apps) gs
          ++ grants_to key_id (added_by change before apps)))
        a
      ≡ (if key_id == k
          then holds_after change (includes (granted k gs) a) (includes apps a)
          else includes (granted k gs) a)
includes_after change k key_id apps gs a =
    let before = sort_texts (granted key_id gs) in
    let added = added_by change before apps in
    let removed = removed_by change before apps in
    let sorted = includes-sort_texts (granted key_id gs) a in
    includes-granted-append k (left key_id removed gs) (grants_to key_id added) a
    ∙ rw (includes-granted-left k key_id removed gs a, includes-granted-grants_to k key_id added a)
        (elim (Bool-cases (key_id == k)) [
          | inl same ↦ rw (sym ((text_eq.beq_iff key_id k).0 same)) (
              ground
                (arith, same, changed change apps before (includes (granted key_id gs) a) a sorted))
          | inr other ↦ ground (arith, other)
        ])

pub validated :
    (apps sorted : List Text) (a : Text)
    → validate_applications apps ≡ ok sorted
    → includes sorted a ≡ includes apps a
unfolding validate_applications
validated apps sorted a h =
    let (_, _, h1) =
      >>=-eq-ok
        (require (not (is_empty apps) && leb (length apps) maximum_applications)
          grants_out_of_range)
        _ h in
    let (_, _, h2) = >>=-eq-ok (require (all is_app_name apps) invalid_application_name) _ h1 in
    let (_, _, h3) =
      >>=-eq-ok (require (not (has_duplicate (sort_texts apps))) duplicate_grants) _ h2 in
    let e : sort_texts apps ≡ sorted = cc h3 in
    ap (λ ts. includes ts a) (sym e) ∙ includes-sort_texts apps a

includes-changed_names :
    (change : Change) (before apps : List Text) (held : Bool) (a : Text)
    → includes before a ≡ held
    → includes (changed_names change before apps) a ≡ holds_after change held (includes apps a)
includes-changed_names change before apps held a e =
    includes-sort_texts _ a
    ∙ ground (
      arith,
      includes-append (filter (λ app. not (includes (removed_by change before apps) app)) before)
          (added_by change before apps) a,
      includes-filter (λ app. not (includes (removed_by change before apps) app)) before a,
      changed change apps before held a e,
      e,
    )

-- Where `changeApplications` succeeds, the key holds an application if it held or was granted it, or
-- if it held it and it was not taken away, no grant of any other key changes, and the names that
-- are returned are those the key now holds.
pub change_applications-grants :
    (change : Change) (key_id : Text) (apps : List Text) (now : ℕ) (db after : Database)
    (names : List Text)
    → change_applications change key_id apps now db ≡ ok (after, names)
    → (k a : Text)
    → (includes (granted k after.grants) a ≡ (
        if key_id == k
        then holds_after change (includes (granted k db.grants) a) (includes apps a)
        else includes (granted k db.grants) a))
      × (includes names a ≡ includes (granted key_id after.grants) a)
unfolding change_applications validate_applications
change_applications-grants change key_id apps now db after names h k a =
    let before = sort_texts (granted key_id db.grants) in
    let (_, _, h1) = >>=-eq-ok (require (is_key_id key_id) invalid_key_id) _ h in
    let (sorted, v, h2) = >>=-eq-ok (validate_applications apps) _ h1 in
    let (_, _, h3) = >>=-eq-ok (require_active now (find_key key_id db.keys)) _ h2 in
    let (d, n) = write_change-eq-ok change key_id before sorted db after names h3 in
    let same = validated apps sorted a v in
    let effect : (i : Text)
        → includes (granted i after.grants) a ≡ (
            if key_id == i
            then holds_after change (includes (granted i db.grants) a) (includes apps a)
            else includes (granted i db.grants) a) =
      λ i.
        ap (λ (e : Database). includes (granted i e.grants) a) (sym d)
        ∙ includes_after change i key_id sorted db.grants a
        ∙ rw same refl in
    let own = effect key_id ∙ rw ((text_eq.beq_iff key_id key_id).1 refl) refl in
    (
      effect k,
      ap (λ ns. includes ns a) (sym n)
          ∙ includes-changed_names change before sorted (includes (granted key_id db.grants) a) a
              (includes-sort_texts (granted key_id db.grants) a)
          ∙ rw same (sym own),
    )
