-- ===== src/Updates/Decision.antt =====
-- src/updates/decision/resolve-update.ts
pub mod Sorting
pub mod Selection
pub mod Candidates
pub mod Offers
mod Tests
pub mod Matching
use ota_api.Contracts.Version.{VersionError, compare_versions}
use ota_api.Contracts.Releases.{
  ReleaseScope, public, allowlist, ReleaseUpdateType, full, hot, ClientUpdateContext, Release,
  AvailableReleaseSnapshot, AudienceSnapshot, ApplicationUpdatePolicy, UpdateDecision,
  UpdateDecisionReason, UpdateSkipReason,
}
use Sorting.{sort_by, filter_throwing}
use ota_api.Prelude.{
  Bool, List, Option, Ordering, Result, Text, [], any, compare, false, filter, get, if◌then◌else◌,
  includes, is_empty, ltb, max, nat_eq, none, ok, option_text_eq, some, text, text_eq, true, ℕ,
  ◌&&◌, ◌==◌, ◌>>=◌, ◌||◌, ◌∷◌,
}

-- `allowedUserIds?.size`
shares_user : Option (List Text) → List Text → Bool
shares_user none user_ids = false
shares_user (some allowed) user_ids =
    if is_empty allowed || is_empty user_ids
    then false
    else any (λ id. includes allowed id) user_ids

scope_allows : ReleaseScope → Option (List Text) → List Text → Bool
unfolding shares_user
scope_allows public allowed user_ids = true
scope_allows allowlist allowed user_ids = shares_user allowed user_ids

pub matches_audience : Release → ClientUpdateContext → AudienceSnapshot → Bool
unfolding scope_allows
matches_audience release context audience =
    scope_allows release.scope (get release.release_id audience.user_ids_by_release_id)
      context.user_ids

abbrev pub macos : Text
macos = text "macos"

abbrev pub universal : Text
universal = text "universal"

architecture_matches : List Text → Text → ApplicationUpdatePolicy → Option Text → Bool
architecture_matches architectures platform policy none = false
architecture_matches architectures platform policy (some []) = false
architecture_matches architectures platform policy (some (c ∷ t)) =
    includes architectures (c ∷ t)
    || (platform == macos
        && (includes architectures universal
            && includes policy.macos_universal_architectures (c ∷ t)))

pub matches_architecture : Release → ClientUpdateContext → ApplicationUpdatePolicy → Bool
unfolding architecture_matches
matches_architecture release context policy =
    if is_empty release.architectures
    then true
    else architecture_matches release.architectures context.platform policy context.architecture

-- an empty channel counts as none
channel_matches : Option Text → Option Text → Bool
channel_matches none channel = true
channel_matches (some []) channel = true
channel_matches (some (c ∷ t)) channel = some (c ∷ t) == channel

pub matches_channel : Release → ClientUpdateContext → Bool
unfolding channel_matches
matches_channel release context =
    channel_matches release.distribution_channel context.distribution_channel

-- newest version first, then the highest sequence
pub full_order : Release → Release → Result VersionError Ordering
full_order left right = do
  versions ← compare_versions right.target_version left.target_version
  ok (elim versions [
    | Ordering.eq ↦ compare right.release_sequence left.release_sequence
    | other ↦ other
  ])

pub hot_order : Release → Release → Result VersionError Ordering
hot_order left right = ok (compare right.release_sequence left.release_sequence)

first : List Release → Option Release
first [] = none
first (r ∷ rs) = some r

pub select_full_release : List Release → Result VersionError (Option Release)
unfolding first
select_full_release releases = do ok (first (← sort_by full_order releases))

pub select_hot_release : List Release → Result VersionError (Option Release)
unfolding first
select_hot_release releases = do ok (first (← sort_by hot_order releases))

abbrev is_gt : Ordering → Bool
is_gt Ordering.gt = true
is_gt _ = false

full_candidate : ReleaseUpdateType → Text → Text → Result VersionError Bool
full_candidate full target current = do ok (is_gt (← compare_versions target current))
full_candidate hot target current = ok false

pub is_full_candidate : ClientUpdateContext → Release → Result VersionError Bool
unfolding full_candidate
is_full_candidate context release =
    full_candidate release.update_type release.target_version context.current_version

abbrev is_hot : ReleaseUpdateType → Bool
is_hot hot = true
is_hot full = false

pub is_hot_candidate : ClientUpdateContext → Release → Bool
is_hot_candidate context release =
    is_hot release.update_type
    && (release.target_version == context.current_version
        && ltb context.installed_release_sequence release.release_sequence)

-- the loop over `stages`, with `eligible` and `skipReason`
pub run_stages :
    List (UpdateSkipReason × (Release → Bool))
    → List Release
    → UpdateSkipReason
    → List Release × UpdateSkipReason
run_stages [] eligible reason = (eligible, reason)
run_stages ((next, matches) ∷ stages) eligible reason =
    let rest = filter matches eligible in
    let later = run_stages stages rest (if is_empty rest then next else reason) in
    if is_empty eligible then (eligible, reason) else later

pub stages :
    ClientUpdateContext
    → AudienceSnapshot
    → ApplicationUpdatePolicy
    → List (UpdateSkipReason × (Release → Bool))
stages context audience policy =
    (UpdateSkipReason.application_mismatch, λ r. r.app_name == context.app_name)
    ∷ (UpdateSkipReason.platform_mismatch, λ r. includes r.platforms context.platform)
    ∷ (UpdateSkipReason.architecture_mismatch, λ r. matches_architecture r context policy)
    ∷ (UpdateSkipReason.channel_mismatch, λ r. matches_channel r context)
    ∷ (UpdateSkipReason.audience_mismatch, λ r. matches_audience r context audience)
    ∷ []

-- the two forms of the returned decision
decide : Option Release → List Release → List Release → UpdateSkipReason → ℕ → UpdateDecision
decide none candidates enabled skip_reason revision = record {
  release = none;
  mandatory = false;
  show_update_dialog = false;
  reason =
      if is_empty enabled
      then UpdateDecisionReason.no_enabled_release
      else UpdateDecisionReason.no_applicable_release;
  skip_reason = some skip_reason;
  revision = revision;
}
decide (some release) candidates enabled skip_reason revision =
    let mandatory = any (λ (r : Release). r.mandatory) candidates in
    record {
      release = some release;
      mandatory = mandatory;
      show_update_dialog = mandatory || release.show_update_dialog;
      reason = UpdateDecisionReason.update_available;
      skip_reason = none;
      revision = revision;
    }

-- the selection among the eligible releases: the candidates, and the first in their order
pub select :
    ClientUpdateContext → List Release → Result VersionError (List Release × Option Release)
select context eligible = do
  full_candidates ← filter_throwing (is_full_candidate context) eligible
  let hot_candidates = filter (is_hot_candidate context) eligible
  let candidates = if is_empty full_candidates then hot_candidates else full_candidates
  release ←
      if is_empty full_candidates
      then select_hot_release hot_candidates
      else select_full_release full_candidates
  ok (candidates, release)

unfoldable pub resolve_update :
    ClientUpdateContext
    → AvailableReleaseSnapshot
    → AudienceSnapshot
    → ApplicationUpdatePolicy
    → Result VersionError UpdateDecision
unfolding run_stages stages decide select select_full_release select_hot_release is_full_candidate
    is_hot_candidate full_order hot_order matches_architecture matches_channel matches_audience
resolve_update context available audience policy = do
  let enabled = filter (λ (r : Release). r.enabled) available.releases
  let start =
      if is_empty enabled
      then UpdateSkipReason.no_enabled_release
      else UpdateSkipReason.already_current
  let staged = run_stages (stages context audience policy) enabled start
  selected ← select context staged.0
  ok (decide selected.1 selected.0 enabled staged.1 (max available.revision audience.revision))
