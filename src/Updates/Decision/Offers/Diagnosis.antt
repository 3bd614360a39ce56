-- ===== src/Updates/Decision/Offers/Diagnosis.antt =====
-- Why nothing is offered: the reported stage is the first that eliminates every candidate.
use ota_api.Contracts.Releases.{
  Release, UpdateSkipReason, ApplicationUpdatePolicy, AudienceSnapshot, AvailableReleaseSnapshot,
  ClientUpdateContext, UpdateDecision,
}
use ota_api.Updates.Decision.{select, decide, stages, run_stages, resolve_update}
use ota_api.Updates.Decision.Offers.{Passes, enabled_releases, staged, decide-release}
use ota_api.Prelude.{
  >>=-eq-ok, Bool, Bool-cases, In, In-filter_from, In-filter_to, List, Option, [], ap, false,
  filter, if◌then◌else◌, inl, inr, is_empty, max, nat_eq, none, ok, option_text_eq, refl, some,
  subst, text_eq, ℕ, ◌++◌, ◌∙◌, ◌∷◌, ◌≡◌, ◌≢◌,
}

-- `start` is reported if a release passes all stages, or none is there; else the stage that some
-- release reaches and none passes.
pub data Diagnosis (stages : List (UpdateSkipReason × (Release → Bool))) (releases : List Release)
    (start : UpdateSkipReason) : UpdateSkipReason → Type 0 where
  passed : (r : Release) → In r releases → Passes r stages → Diagnosis stages releases start start
  absent : releases ≡ [] → Diagnosis stages releases start start
  eliminated :
      (before after : List (UpdateSkipReason × (Release → Bool))) (reason : UpdateSkipReason)
      (matches : Release → Bool)
      → stages ≡ before ++ (reason, matches) ∷ after
      → (r : Release) → In r releases
      → Passes r before
      → ((x : Release) → In x releases → Passes x before → matches x ≡ false)
      → Diagnosis stages releases start reason

run_stages-nil :
    (st : List (UpdateSkipReason × (Release → Bool))) (reason : UpdateSkipReason)
    → (run_stages st [] reason).1 ≡ reason
unfolding run_stages
run_stages-nil [] reason = refl
run_stages-nil ((next, matches) ∷ st) reason = refl

not_in_nil :
    (matches : Release → Bool) (rs : List Release)
    → filter matches rs ≡ []
    → (x : Release) → In x rs
    → matches x ≡ false
not_in_nil matches rs e x i = elim (Bool-cases (matches x)) [
  | inl t ↦ absurd (subst (In x) e (In-filter_to matches x rs i t))
  | inr f ↦ f
]

module _ (next : UpdateSkipReason) (matches : Release → Bool)
    (st : List (UpdateSkipReason × (Release → Bool))) (rs : List Release)
    (start : UpdateSkipReason) where
  deeper :
      {reason : UpdateSkipReason}
      → filter matches rs ≢ []
      → Diagnosis st (filter matches rs) start reason
      → Diagnosis ((next, matches) ∷ st) rs start reason
  deeper n (passed r i p) = let (j, m) = In-filter_from matches r rs i in passed r j (m, p)
  deeper n (absent e) = absurd (n e)
  deeper n (eliminated before after reason m e r i p k) =
      let (j, t) = In-filter_from matches r rs i in
      eliminated ((next, matches) ∷ before) after reason m (ap (◌∷◌ (next, matches)) e) r j (t, p)
        (λ x ix px. k x (In-filter_to matches x rs ix px.0) px.1)

run_stages-Diagnosis :
    (st : List (UpdateSkipReason × (Release → Bool))) (rs : List Release) (start : UpdateSkipReason)
    → Diagnosis st rs start (run_stages st rs start).1
unfolding run_stages
run_stages-Diagnosis [] [] start = absent refl
run_stages-Diagnosis [] (x ∷ rs) start = passed x (inl refl) tt
run_stages-Diagnosis ((next, matches) ∷ st) [] start = absent refl
run_stages-Diagnosis ((next, matches) ∷ st) (x ∷ rs) start =
    from (filter matches (x ∷ rs)) refl (run_stages-Diagnosis st (filter matches (x ∷ rs)) start)
  where
    from :
        (l : List Release)
        → filter matches (x ∷ rs) ≡ l
        → Diagnosis st
            (filter matches (x ∷ rs))
            start
            (run_stages st (filter matches (x ∷ rs)) start).1
        → Diagnosis
            ((next, matches) ∷ st)
            (x ∷ rs)
            start
            (run_stages st l (if is_empty l then next else start)).1
    from [] e ih = rw (run_stages-nil st next) (
        eliminated [] st next matches refl x (inl refl) tt
          (λ y i _. not_in_nil matches (x ∷ rs) e y i))
    from (y ∷ l) e ih =
        deeper next matches st (x ∷ rs) start (λ z. cc)
          (subst (λ k. Diagnosis st (filter matches (x ∷ rs)) start (run_stages st k start).1) e ih)

decide-skip :
    (o : Option Release) (cs es : List Release) (reason : UpdateSkipReason) (n : ℕ)
    {found : UpdateSkipReason}
    → (decide o cs es reason n).skip_reason ≡ some found
    → (o ≡ none) × (reason ≡ found)
unfolding decide
decide-skip none cs es reason n h = (refl, cc)
decide-skip (some r) cs es reason n h = cc

-- A decision that reports a reason offers nothing, and the reason is that of the first stage that no
-- enabled release passes; where a release passes every stage it is `already_current`, and without
-- an enabled release it is `no_enabled_release`.
pub resolve_update-Diagnosis :
    (context : ClientUpdateContext) (available : AvailableReleaseSnapshot)
    (audience : AudienceSnapshot) (policy : ApplicationUpdatePolicy) {d : UpdateDecision}
    {reason : UpdateSkipReason}
    → resolve_update context available audience policy ≡ ok d
    → d.skip_reason ≡ some reason
    → (d.release ≡ none)
      × Diagnosis
          (stages context audience policy)
          (enabled_releases context available audience policy)
          (if is_empty (enabled_releases context available audience policy)
            then UpdateSkipReason.no_enabled_release
            else UpdateSkipReason.already_current)
          reason
unfolding resolve_update
resolve_update-Diagnosis context available audience policy {d} {reason} h k =
    let es = enabled_releases context available audience policy in
    let st = staged context available audience policy in
    let n = max available.revision audience.revision in
    let start : UpdateSkipReason =
      if is_empty es
      then UpdateSkipReason.no_enabled_release
      else UpdateSkipReason.already_current in
    let (selected, e, f) = >>=-eq-ok (select context st.0) (λ s. ok (decide s.1 s.0 es st.1 n)) h in
    let q : decide selected.1 selected.0 es st.1 n ≡ d = cc in
    let (a, b) = decide-skip selected.1 selected.0 es st.1 n (rw (← q) at k) in
    (
      rw (← q)
          (decide-release context available audience policy selected.1 selected.0 es st.1 n ∙ a),
      subst (Diagnosis (stages context audience policy) es start) b
          (run_stages-Diagnosis (stages context audience policy) es start),
    )
