-- ===== src/Updates/Decision/Offers.antt =====
-- What `resolveUpdate` decides over a catalog whose versions are valid.
pub mod Flags
pub mod Diagnosis
use ota_api.Contracts.Version.{is_app_version}
use ota_api.Contracts.Releases.{
  ApplicationUpdatePolicy, AudienceSnapshot, AvailableReleaseSnapshot, ClientUpdateContext, Release,
  UpdateSkipReason, UpdateDecision,
}
use ota_api.Updates.Decision.{run_stages, stages, decide, resolve_update}
use ota_api.Updates.Decision.Matching.{
  FitsArchitecture, FitsAudience, FitsChannel, matches_architecture_iff, matches_audience_iff,
  matches_channel_iff,
}
use ota_api.Updates.Decision.Selection.{HasVersion, Selected, Selected-map}
use ota_api.Updates.Decision.Candidates.{candidates, select-Selected}
use ota_api.Prelude.{
  All, All-In, All-of_In, Bool, In, In-filter_from, In-filter_to, In_of_includes, List, Option, [],
  any-eq-true_from, any-eq-true_to, filter, if◌then◌else◌, includes_of_In, is_empty, list_beq_iff,
  max, nat_eq, none, ok, option_text_eq, refl, some, subst, sym, text_eq, true, ℕ, ◌↔◌, ◌∷◌, ◌≡◌,
  ◌≢◌,
}

abbrev Passes : Release → List (UpdateSkipReason × (Release → Bool)) → Type 0
Passes r st = All (λ s. s.1 r ≡ true) st

run_stages-from :
    (st : List (UpdateSkipReason × (Release → Bool))) (rs : List Release)
    (reason : UpdateSkipReason) (r : Release)
    → In r (run_stages st rs reason).0
    → In r rs × Passes r st
unfolding run_stages
run_stages-from [] rs reason r h = (h, tt)
run_stages-from ((next, matches) ∷ st) [] reason r h = elim h [ ]
run_stages-from ((next, matches) ∷ st) (x ∷ rs) reason r h =
    let (i, p) = run_stages-from st (filter matches (x ∷ rs)) _ r h in
    let (j, q) = In-filter_from matches r (x ∷ rs) i in (j, (q, p))

run_stages-to :
    (st : List (UpdateSkipReason × (Release → Bool))) (rs : List Release)
    (reason : UpdateSkipReason) (r : Release)
    → In r rs
    → Passes r st
    → In r (run_stages st rs reason).0
unfolding run_stages
run_stages-to [] rs reason r i p = i
run_stages-to ((next, matches) ∷ st) [] reason r i p = elim i [ ]
run_stages-to ((next, matches) ∷ st) (x ∷ rs) reason r i p =
    run_stages-to st (filter matches (x ∷ rs)) _ r (In-filter_to matches r (x ∷ rs) i p.0) p.1

-- A release of the catalog that fits the client, whatever its version.
pub record IsApplicable (context : ClientUpdateContext) (available : AvailableReleaseSnapshot)
    (audience : AudienceSnapshot) (policy : ApplicationUpdatePolicy) (r : Release) : Type 0 where
  pub listed : In r available.releases
  pub enabled : r.enabled ≡ true
  pub same_app : r.app_name ≡ context.app_name
  pub on_platform : In context.platform r.platforms
  pub architecture : FitsArchitecture r context policy
  pub channel : FitsChannel r context
  pub reached : FitsAudience r context audience

module _ (context : ClientUpdateContext) (available : AvailableReleaseSnapshot)
    (audience : AudienceSnapshot) (policy : ApplicationUpdatePolicy) where
  abbrev enabled_releases : List Release
  enabled_releases = filter (λ (r : Release). r.enabled) available.releases

  abbrev start_reason : UpdateSkipReason
  start_reason =
      if is_empty enabled_releases
      then UpdateSkipReason.no_enabled_release
      else UpdateSkipReason.already_current

  abbrev staged : List Release × UpdateSkipReason
  staged = run_stages (stages context audience policy) enabled_releases start_reason

  Passes-iff :
      (r : Release)
      → In r available.releases
      → r.enabled ≡ true
      → Passes r (stages context audience policy) ↔ IsApplicable context available audience policy r
  unfolding stages
  Passes-iff r i en = (
    λ (a, (p, (b, (c, (d, _))))). record {
      listed = i;
      enabled = en;
      same_app = (list_beq_iff r.app_name context.app_name).0 a;
      on_platform = In_of_includes r.platforms context.platform p;
      architecture = (matches_architecture_iff r context policy).0 b;
      channel = (matches_channel_iff r context).0 c;
      reached = (matches_audience_iff r context audience).0 d;
    },
    λ v. (
      (list_beq_iff r.app_name context.app_name).1 v.same_app,
      (
        includes_of_In r.platforms context.platform v.on_platform,
        (
          (matches_architecture_iff r context policy).1 v.architecture,
          (
            (matches_channel_iff r context).1 v.channel,
            ((matches_audience_iff r context audience).1 v.reached, tt),
          ),
        ),
      ),
    ),
  )

  pub staged_iff : (r : Release) → In r staged.0 ↔ IsApplicable context available audience policy r
  staged_iff r = (
    λ h.
        let (i, p) =
          run_stages-from (stages context audience policy) enabled_releases start_reason r h in
        let (j, en) = In-filter_from (λ (x : Release). x.enabled) r available.releases i in
        (Passes-iff r j en).0 p,
    λ v.
        run_stages-to (stages context audience policy) enabled_releases start_reason r
          (In-filter_to (λ (x : Release). x.enabled) r available.releases v.listed v.enabled)
          ((Passes-iff r v.listed v.enabled).1 v),
  )

  decide-release :
      (o : Option Release) (cs es : List Release) (reason : UpdateSkipReason) (n : ℕ)
      → (decide o cs es reason n).release ≡ o
  unfolding decide
  decide-release none cs es reason n = refl
  decide-release (some r) cs es reason n = refl

  decide-mandatory :
      (o : Option Release) (cs es : List Release) (reason : UpdateSkipReason) (n : ℕ)
      → ((decide o cs es reason n).mandatory ≡ true)
        ↔ ((o ≢ none) × ((c : Release) × In c cs × (c.mandatory ≡ true)))
  unfolding decide
  decide-mandatory none cs es reason n = (λ h. cc, λ (a, b). absurd (a refl))
  decide-mandatory (some r) cs es reason n = (
    λ h. ((λ e. cc), any-eq-true_from (λ (c : Release). c.mandatory) cs h),
    λ (a, (c, i, m)). any-eq-true_to (λ (c : Release). c.mandatory) c cs i m,
  )

  module _ (current_valid : is_app_version context.current_version ≡ true)
      (catalog_valid : All HasVersion available.releases) where
    staged_valid : All HasVersion staged.0
    staged_valid =
        All-of_In HasVersion staged.0
          (λ r i. All-In HasVersion r available.releases catalog_valid ((staged_iff r).0 i).listed)

    -- With a valid client version and valid versions in the catalog a decision is returned. It offers
    -- nothing exactly when no applicable release is newer and full, or hot and for the client's
    -- version with a higher sequence. Otherwise it offers such a release: a newer full one if there
    -- is one, of the greatest version and then sequence, or else the hot one of the highest sequence.
    pub resolve_update-Selected :
        (d : UpdateDecision) × (resolve_update context available audience policy ≡ ok d)
        × Selected context (IsApplicable context available audience policy) d.release
    unfolding resolve_update
    resolve_update-Selected =
        let (o, e, v) = select-Selected context staged.0 current_valid staged_valid in
        let d =
          decide o (candidates context staged.0) enabled_releases staged.1
            (max available.revision audience.revision) in
        (
          d,
          rw e refl,
          subst (Selected context (IsApplicable context available audience policy))
              (sym (decide-release o _ _ _ _)) (Selected-map staged_iff v),
        )
