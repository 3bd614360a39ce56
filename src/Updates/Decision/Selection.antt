-- ===== src/Updates/Decision/Selection.antt =====
-- The two orders of candidates, and the selection among the eligible releases.
use ota_api.Contracts.Version.{is_app_version}
use ota_api.Contracts.Version.Numeric.{
  compare_components, components, compare_versions-value, length-components,
}
use ota_api.Contracts.Version.Order.{Le, head_le, compare_components-append}
use ota_api.Contracts.Releases.{ReleaseUpdateType, full, hot, ClientUpdateContext, Release}
use ota_api.Updates.Decision.{
  full_order, hot_order, select_full_release, select_hot_release, is_full_candidate,
  is_hot_candidate,
}
use ota_api.Updates.Decision.Sorting.{filter_throwing, sort_by}
use ota_api.Updates.Decision.Sorting.Best.{sort_by-IsBest}
use ota_api.Prelude.{
  All, Bool, In, List, Option, Ordering, Text, [], arith, false, filter, length, length-append,
  list_beq_iff, nat_eq, none, ok, option_text_eq, refl, some, sym, text_eq, true, ℕ, ◌++◌, ◌<◌, ◌↔◌,
  ◌∙◌, ◌∷◌, ◌≡◌, ◌≤◌, ◌⊎◌,
}

abbrev pub HasVersion : Release → Type 0
HasVersion r = is_app_version r.target_version ≡ true

-- The components of the version, then the sequence.
abbrev pub rank : Release → List ℕ
rank r = components r.target_version ++ r.release_sequence ∷ []

length-rank : (r : Release) → HasVersion r → length (rank r) ≡ 4
length-rank r h = omega (
  arith,
  length-append (components r.target_version) (r.release_sequence ∷ []),
  length-components r.target_version h,
)

full_order-rank :
    (x y : Release)
    → HasVersion x
    → HasVersion y
    → full_order x y ≡ ok (compare_components (rank y) (rank x))
unfolding full_order
full_order-rank x y hx hy =
    let ly = length-components y.target_version hy in
    let lx = length-components x.target_version hx in
    ground (
      arith,
      compare_versions-value y.target_version x.target_version hy hx,
      compare_components-append (components y.target_version) (components x.target_version)
          y.release_sequence x.release_sequence (ly ∙ sym lx),
    )

abbrev sequence : Release → List ℕ
sequence r = r.release_sequence ∷ []

hot_order-sequence :
    (x y : Release) → hot_order x y ≡ ok (compare_components (sequence y) (sequence x))
unfolding hot_order compare_components
hot_order-sequence x y = ground arith

pub select_full_release-best :
    (r : Release) (rs : List Release)
    → All HasVersion (r ∷ rs)
    → (m : Release) × (select_full_release (r ∷ rs) ≡ ok (some m))
      × In m (r ∷ rs)
      × All (λ y. Le (rank y) (rank m)) (r ∷ rs)
unfolding select_full_release
select_full_release-best r rs h =
    let (m, rest, e, b) =
      sort_by-IsBest rank 4 HasVersion length-rank full_order full_order-rank r rs h in
    (m, rw e refl, b.chosen, b.greatest)

All-le :
    (m : Release) (rs : List Release)
    → All (λ y. Le (sequence y) (sequence m)) rs
    → All (λ (y : Release). y.release_sequence ≤ m.release_sequence) rs
All-le m [] h = tt
All-le m (y ∷ rs) h = (head_le _ _ [] [] h.0, All-le m rs h.1)

All-Unit : (rs : List Release) → All (λ _. Unit {0}) rs
All-Unit [] = tt
All-Unit (r ∷ rs) = (tt, All-Unit rs)

pub select_hot_release-best :
    (r : Release) (rs : List Release)
    → (m : Release) × (select_hot_release (r ∷ rs) ≡ ok (some m))
      × In m (r ∷ rs)
      × All (λ (y : Release). y.release_sequence ≤ m.release_sequence) (r ∷ rs)
unfolding select_hot_release
select_hot_release-best r rs =
    let (m, rest, e, b) =
      sort_by-IsBest sequence 1 (λ _. Unit {0}) (λ x _. refl) hot_order
        (λ x y _ _. hot_order-sequence x y) r rs (All-Unit (r ∷ rs)) in
    (m, rw e refl, b.chosen, All-le m (r ∷ rs) b.greatest)

pub select_hot_release-nil : select_hot_release [] ≡ ok none
unfolding select_hot_release sort_by
select_hot_release-nil = refl

-- A full release with a version above the client's.
pub record IsNewerFull (context : ClientUpdateContext) (r : Release) : Type 0 where
  pub is_full : r.update_type ≡ full
  pub newer :
      compare_components (components r.target_version) (components context.current_version)
      ≡ Ordering.gt

-- A hot release for the client's version, with a sequence above the installed one.
pub record IsHotFor (context : ClientUpdateContext) (r : Release) : Type 0 where
  pub is_hot : r.update_type ≡ hot
  pub same_version : r.target_version ≡ context.current_version
  pub later : context.installed_release_sequence < r.release_sequence

newer_full : ReleaseUpdateType → Text → Text → Bool
newer_full full target current =
    elim (compare_components (components target) (components current)) [
      | Ordering.gt ↦ true
      | _ ↦ false
    ]
newer_full hot target current = false

pub is_newer_full : ClientUpdateContext → Release → Bool
unfolding newer_full
is_newer_full context r = newer_full r.update_type r.target_version context.current_version

pub is_newer_full_iff :
    (context : ClientUpdateContext) (r : Release)
    → (is_newer_full context r ≡ true) ↔ IsNewerFull context r
unfolding is_newer_full
is_newer_full_iff context r = ground arith

pub is_hot_candidate_iff :
    (context : ClientUpdateContext) (r : Release)
    → (is_hot_candidate context r ≡ true) ↔ IsHotFor context r
unfolding is_hot_candidate
is_hot_candidate_iff context r =
    ground (arith, list_beq_iff r.target_version context.current_version)

is_full_candidate-ok :
    (context : ClientUpdateContext) (r : Release)
    → is_app_version context.current_version ≡ true
    → HasVersion r
    → is_full_candidate context r ≡ ok (is_newer_full context r)
unfolding is_full_candidate is_newer_full
is_full_candidate-ok context r hc hr =
    ground (arith, compare_versions-value r.target_version context.current_version hr hc)

pub full_candidates-ok :
    (context : ClientUpdateContext) (rs : List Release)
    → is_app_version context.current_version ≡ true
    → All HasVersion rs
    → filter_throwing (is_full_candidate context) rs ≡ ok (filter (is_newer_full context) rs)
unfolding filter_throwing filter
full_candidates-ok context [] hc h = refl
full_candidates-ok context (r ∷ rs) hc h =
    rw (is_full_candidate-ok context r hc h.0, full_candidates-ok context rs hc h.1) refl

-- What is selected among the eligible releases: nothing if there is no candidate; a best newer full
-- release if there is one; otherwise the hot release with the highest sequence.
pub data Selected (context : ClientUpdateContext) (IsEligible : Release → Type 0)
    : Option Release → Type 0 where
  nothing :
      ((r : Release) → IsEligible r → ¬ (IsNewerFull context r ⊎ IsHotFor context r))
      → Selected context IsEligible none
  newest :
      (m : Release)
      → IsEligible m
      → IsNewerFull context m
      → ((r : Release) → IsEligible r → IsNewerFull context r → Le (rank r) (rank m))
      → Selected context IsEligible (some m)
  hottest :
      (m : Release)
      → IsEligible m
      → IsHotFor context m
      → ((r : Release) → IsEligible r → ¬ IsNewerFull context r)
      → ((r : Release)
          → IsEligible r
          → IsHotFor context r
          → r.release_sequence ≤ m.release_sequence)
      → Selected context IsEligible (some m)

pub Selected-map :
    {context : ClientUpdateContext} {E F : Release → Type 0} {o : Option Release}
    → ((r : Release) → E r ↔ F r)
    → Selected context E o
    → Selected context F o
Selected-map w (nothing n) = nothing (λ r i. n r ((w r).1 i))
Selected-map w (newest m i n b) = newest m ((w m).0 i) n (λ r j. b r ((w r).1 j))
Selected-map w (hottest m i n a b) =
    hottest m ((w m).0 i) n (λ r j. a r ((w r).1 j)) (λ r j. b r ((w r).1 j))
