-- ===== src/Updates/Decision/Offers/Flags.antt =====
-- The mandatory flag and the dialog of an offer.
use ota_api.Contracts.Version.{is_app_version}
use ota_api.Contracts.Releases.{
  ApplicationUpdatePolicy, AudienceSnapshot, AvailableReleaseSnapshot, ClientUpdateContext, Release,
  UpdateDecision, UpdateSkipReason,
}
use ota_api.Updates.Decision.{resolve_update, decide}
use ota_api.Updates.Decision.Selection.{HasVersion}
use ota_api.Updates.Decision.Candidates.{In-candidates, IsCandidate, candidates, select-Selected}
use ota_api.Updates.Decision.Offers.{
  staged, staged_valid, staged_iff, enabled_releases, decide-mandatory, IsApplicable,
  decide-release,
}
use ota_api.Prelude.{
  All, Bool, In, List, Option, false, inl, inr, max, nat_eq, none, ok, option_text_eq, refl, some,
  subst, text_eq, true, ℕ, ◌||◌, ◌↔◌, ◌≡◌, ◌≢◌,
}

IsCandidate-map :
    (context : ClientUpdateContext) (E F : Release → Type 0) (c : Release)
    → ((r : Release) → E r ↔ F r)
    → IsCandidate context E c
    → IsCandidate context F c
IsCandidate-map context E F c w (i, inl n) = ((w c).0 i, inl n)
IsCandidate-map context E F c w (i, inr (a, n)) = ((w c).0 i, inr (λ r j. a r ((w r).1 j), n))

abbrev pub dialog_of : Option Release → Bool
dialog_of none = false
dialog_of (some r) = r.show_update_dialog

decide-dialog :
    (o : Option Release) (cs es : List Release) (reason : UpdateSkipReason) (n : ℕ)
    → let d = decide o cs es reason n in d.show_update_dialog ≡ d.mandatory || dialog_of d.release
unfolding decide
decide-dialog none cs es reason n = refl
decide-dialog (some r) cs es reason n = refl

module _ (context : ClientUpdateContext) (available : AvailableReleaseSnapshot)
    (audience : AudienceSnapshot) (policy : ApplicationUpdatePolicy) where
  abbrev pub Applicable : Release → Type 0
  Applicable = IsApplicable context available audience policy

  abbrev eligible : List Release
  eligible = (staged context available audience policy).0

  mandatory-IsCandidate :
      ((c : Release) × In c (candidates context eligible) × (c.mandatory ≡ true))
      ↔ ((c : Release) × IsCandidate context Applicable c × (c.mandatory ≡ true))
  mandatory-IsCandidate = (
    λ (c, i, m). (
      c,
      IsCandidate-map context (λ r. In r eligible) Applicable c
          (staged_iff context available audience policy) ((In-candidates context eligible c).0 i),
      m,
    ),
    λ (c, i, m). (
      c,
      (In-candidates context eligible c).1 (
          IsCandidate-map context Applicable (λ r. In r eligible) c
            (λ r. let w = staged_iff context available audience policy r in (w.1, w.0)) i),
      m,
    ),
  )

  abbrev decided : Option Release → UpdateDecision
  decided o =
      decide o (candidates context eligible) (enabled_releases context available audience policy)
        (staged context available audience policy).1 (max available.revision audience.revision)

  abbrev HasFlags : UpdateDecision → Type 0
  HasFlags d =
      ((d.mandatory ≡ true) ↔ (
        (d.release ≢ none)
        × ((c : Release) × IsCandidate context Applicable c × (c.mandatory ≡ true))))
      × (d.show_update_dialog ≡ d.mandatory || dialog_of d.release)

  decided-HasFlags : (o : Option Release) → HasFlags (decided o)
  decided-HasFlags o =
      let es = enabled_releases context available audience policy in
      let reason = (staged context available audience policy).1 in
      let n = max available.revision audience.revision in
      let cs = candidates context eligible in
      let w = decide-mandatory context available audience policy o cs es reason n in
      let r = decide-release context available audience policy o cs es reason n in
      (
        (
          λ m. let (a, b) = w.0 m in (rw r a, mandatory-IsCandidate.0 b),
          λ (a, b). w.1 (rw r at a, mandatory-IsCandidate.1 b),
        ),
        decide-dialog o cs es reason n,
      )

  -- With valid versions, the decision is mandatory exactly when something is offered and some
  -- candidate, offered or not, is mandatory; the dialog is shown exactly when the decision is
  -- mandatory or the offered release asks for it.
  pub resolve_update-mandatory :
      is_app_version context.current_version ≡ true
      → All HasVersion available.releases
      → {d : UpdateDecision} → resolve_update context available audience policy ≡ ok d
      → ((d.mandatory ≡ true) ↔ (
          (d.release ≢ none)
          × ((c : Release) × IsCandidate context Applicable c × (c.mandatory ≡ true))))
        × (d.show_update_dialog ≡ d.mandatory || dialog_of d.release)
  unfolding resolve_update
  resolve_update-mandatory current catalog {d} h =
      let (o, e, _) =
        select-Selected context eligible current
          (staged_valid context available audience policy current catalog) in
      let f : resolve_update context available audience policy ≡ ok (decided o) = rw e refl in
      let q : decided o ≡ d = cc in subst HasFlags q (decided-HasFlags o)
