-- ===== src/Updates/Decision/Candidates.antt =====
-- The selection among the eligible releases succeeds, and is the one described.
use ota_api.Contracts.Version.{is_app_version}
use ota_api.Contracts.Version.Order.{Le}
use ota_api.Contracts.Releases.{ClientUpdateContext, Release}
use ota_api.Updates.Decision.{select, is_hot_candidate}
use ota_api.Updates.Decision.Selection.{
  HasVersion, IsHotFor, IsNewerFull, Selected, full_candidates-ok, hottest, is_hot_candidate_iff,
  is_newer_full, is_newer_full_iff, newest, nothing, rank, select_full_release-best,
  select_hot_release-best, select_hot_release-nil,
}
use ota_api.Prelude.{
  All, All-In, All-filter, In, In-filter_from, In-filter_to, List, Option, [], filter,
  if◌then◌else◌, inl, inr, is_empty, nat_eq, none, ok, option_text_eq, refl, some, subst, text_eq,
  true, ◌↔◌, ◌∷◌, ◌≡◌, ◌≤◌, ◌⊎◌,
}

-- The candidates that share the mandatory flag: the newer full releases, or else the hot ones.
pub candidates : ClientUpdateContext → List Release → List Release
candidates context rs =
    let fulls = filter (is_newer_full context) rs in
    if is_empty fulls then filter (is_hot_candidate context) rs else fulls

module _ (context : ClientUpdateContext) (rs : List Release) where
  not_newer :
      filter (is_newer_full context) rs ≡ [] → (r : Release) → In r rs → ¬ IsNewerFull context r
  not_newer e r i n =
      let j = In-filter_to (is_newer_full context) r rs i ((is_newer_full_iff context r).1 n) in
      subst (In r) e j

  not_hot :
      filter (is_hot_candidate context) rs ≡ [] → (r : Release) → In r rs → ¬ IsHotFor context r
  not_hot e r i n =
      let j =
        In-filter_to (is_hot_candidate context) r rs i ((is_hot_candidate_iff context r).1 n) in
      subst (In r) e j

module _ (context : ClientUpdateContext) (rs : List Release)
    (hc : is_app_version context.current_version ≡ true) (h : All HasVersion rs) where
  select_hot :
      (l : List Release)
      → filter (is_newer_full context) rs ≡ []
      → filter (is_hot_candidate context) rs ≡ l
      → (o : Option Release) × (select context rs ≡ ok (candidates context rs, o))
        × Selected context (λ r. In r rs) o
  unfolding select candidates
  select_hot [] e f = (
    none,
    rw (full_candidates-ok context rs hc h, e, f, select_hot_release-nil),
    nothing (λ r i s. elim s [
      | inl n ↦ not_newer context rs e r i n
      | inr n ↦ not_hot context rs f r i n
    ]),
  )
  select_hot (x ∷ l) e f =
      let (m, g, i, b) = select_hot_release-best x l in
      let from = In-filter_from (is_hot_candidate context) m rs (rw f i) in
      (
        some m,
        rw (full_candidates-ok context rs hc h) (rw (e, f, g)),
        hottest m from.0 ((is_hot_candidate_iff context m).0 from.1) (not_newer context rs e)
            (λ r j n.
              All-In (λ (y : Release). y.release_sequence ≤ m.release_sequence) r (x ∷ l) b
                (subst (In r) f (
                  In-filter_to (is_hot_candidate context) r rs j
                    ((is_hot_candidate_iff context r).1 n)))),
      )

  select_full :
      (x : Release) (l : List Release)
      → filter (is_newer_full context) rs ≡ x ∷ l
      → (o : Option Release) × (select context rs ≡ ok (candidates context rs, o))
        × Selected context (λ r. In r rs) o
  unfolding select candidates
  select_full x l e =
      let (m, g, i, b) =
        select_full_release-best x l
          (subst (All HasVersion) e (All-filter HasVersion (is_newer_full context) rs h)) in
      let from = In-filter_from (is_newer_full context) m rs (rw e i) in
      (
        some m,
        rw (full_candidates-ok context rs hc h) (rw (e, g)),
        newest m from.0 ((is_newer_full_iff context m).0 from.1) (λ r j n.
            All-In (λ y. Le (rank y) (rank m)) r (x ∷ l) b
              (subst (In r) e
                (In-filter_to (is_newer_full context) r rs j ((is_newer_full_iff context r).1 n)))),
      )

  -- With valid versions the selection succeeds, and is the one described.
  pub select-Selected :
      (o : Option Release) × (select context rs ≡ ok (candidates context rs, o))
      × Selected context (λ r. In r rs) o
  select-Selected = from (filter (is_newer_full context) rs) refl
    where
      from :
          (l : List Release)
          → filter (is_newer_full context) rs ≡ l
          → (o : Option Release) × (select context rs ≡ ok (candidates context rs, o))
            × Selected context (λ r. In r rs) o
      from [] e = select_hot (filter (is_hot_candidate context) rs) e refl
      from (x ∷ l) e = select_full x l e

-- The candidates of an offer: the newer full releases if there is one, or else the hot ones.
abbrev pub IsCandidate : ClientUpdateContext → (Release → Type 0) → Release → Type 0
IsCandidate context E c =
    E c
    × (IsNewerFull context c
        ⊎ (((r : Release) → E r → ¬ IsNewerFull context r) × IsHotFor context c))

In-full :
    (context : ClientUpdateContext) (rs : List Release) (r c : Release) (l : List Release)
    → filter (is_newer_full context) rs ≡ r ∷ l
    → (In c (candidates context rs) ↔ IsCandidate context (λ x. In x rs) c)
unfolding candidates
In-full context rs r c l e =
    let j : IsNewerFull context r × In r rs =
      let i = In-filter_from (is_newer_full context) r rs (rw e (inl refl)) in
      ((is_newer_full_iff context r).0 i.1, i.0) in
    (
      λ m.
          let i = In-filter_from (is_newer_full context) c rs (rw e (rw e at m)) in
          (i.0, inl ((is_newer_full_iff context c).0 i.1)),
      λ (i, w). elim w [
        | inl n ↦ rw e (
            subst (In c) e
              (In-filter_to (is_newer_full context) c rs i ((is_newer_full_iff context c).1 n)))
        | inr (no_full, n) ↦ absurd (no_full r j.1 j.0)
      ],
    )

In-hot :
    (context : ClientUpdateContext) (rs : List Release) (c : Release)
    → filter (is_newer_full context) rs ≡ []
    → (In c (candidates context rs) ↔ IsCandidate context (λ x. In x rs) c)
unfolding candidates
In-hot context rs c e = (
  λ m.
      let i = In-filter_from (is_hot_candidate context) c rs (rw e at m) in
      (i.0, inr (not_newer context rs e, (is_hot_candidate_iff context c).0 i.1)),
  λ (i, w). elim w [
    | inl n ↦ absurd (not_newer context rs e c i n)
    | inr (no_full, n) ↦
        rw e (In-filter_to (is_hot_candidate context) c rs i ((is_hot_candidate_iff context c).1 n))
  ],
)

pub In-candidates :
    (context : ClientUpdateContext) (rs : List Release) (c : Release)
    → (In c (candidates context rs) ↔ IsCandidate context (λ x. In x rs) c)
In-candidates context rs c = from (filter (is_newer_full context) rs) refl
  where
    from :
        (l : List Release)
        → filter (is_newer_full context) rs ≡ l
        → (In c (candidates context rs) ↔ IsCandidate context (λ x. In x rs) c)
    from [] e = In-hot context rs c e
    from (r ∷ l) e = In-full context rs r c l e
