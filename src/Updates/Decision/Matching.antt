-- ===== src/Updates/Decision/Matching.antt =====
-- What each stage of the decision demands of a release.
use ota_api.Contracts.Releases.{
  ReleaseScope, public, allowlist, ClientUpdateContext, Release, AudienceSnapshot,
  ApplicationUpdatePolicy,
}
use ota_api.Updates.Decision.{
  shares_user, scope_allows, matches_audience, macos, universal, architecture_matches,
  matches_architecture, channel_matches, matches_channel,
}
use ota_api.Prelude.{
  Bool-cases, In, In_of_includes, List, Option, Text, [], any-eq-true_from, any-eq-true_to, ap,
  arith, get, includes, includes_of_In, inl, inr, is_empty, list_beq_iff, nat_eq, none,
  option_beq_iff, option_text_eq, refl, some, sym, text_eq, true, ◌↔◌, ◌∷◌, ◌≡◌, ◌≢◌, ◌⊎◌,
}

-- The client's architecture is listed, or a universal macOS build covers it.
abbrev pub FitsArchitecture : Release → ClientUpdateContext → ApplicationUpdatePolicy → Type 0
FitsArchitecture release context policy =
    (release.architectures ≡ [])
    ⊎ ((a : Text) × (context.architecture ≡ some a)
        × (a ≢ [])
        × (In a release.architectures
            ⊎ ((context.platform ≡ macos)
                × In universal release.architectures
                × In a policy.macos_universal_architectures)))

abbrev pub FitsChannel : Release → ClientUpdateContext → Type 0
FitsChannel release context =
    (release.distribution_channel ≡ none)
    ⊎ ((release.distribution_channel ≡ some [])
        ⊎ (context.distribution_channel ≡ release.distribution_channel))

-- The release is public, or one of the client's users is on its list.
abbrev pub FitsAudience : Release → ClientUpdateContext → AudienceSnapshot → Type 0
FitsAudience release context audience =
    (release.scope ≡ public)
    ⊎ ((allowed : List Text) × (get release.release_id audience.user_ids_by_release_id
          ≡ some allowed)
        × (u : Text) × In u context.user_ids
        × In u allowed)

shares_user_from :
    (o : Option (List Text)) (user_ids : List Text)
    → shares_user o user_ids ≡ true
    → (allowed : List Text) × (o ≡ some allowed) × (u : Text) × In u user_ids × In u allowed
unfolding shares_user
shares_user_from none user_ids h = cc
shares_user_from (some allowed) user_ids h =
    let (u, m, i) = any-eq-true_from (λ id. includes allowed id) user_ids (ground arith) in
    (allowed, refl, u, m, In_of_includes allowed u i)

shares_user_to :
    (allowed : List Text) (user_ids : List Text) (u : Text)
    → In u user_ids
    → In u allowed
    → shares_user (some allowed) user_ids ≡ true
unfolding shares_user
shares_user_to [] user_ids u m i = elim i [ ]
shares_user_to (a ∷ as') [] u m i = elim m [ ]
shares_user_to (a ∷ as') (b ∷ bs) u m i =
    any-eq-true_to (λ id. includes (a ∷ as') id) u (b ∷ bs) m (includes_of_In (a ∷ as') u i)

scope_allows_from :
    (s : ReleaseScope) (o : Option (List Text)) (user_ids : List Text)
    → scope_allows s o user_ids ≡ true
    → (s ≡ public)
      ⊎ ((allowed : List Text) × (o ≡ some allowed) × (u : Text) × In u user_ids × In u allowed)
unfolding scope_allows
scope_allows_from public o user_ids h = inl refl
scope_allows_from allowlist o user_ids h = inr (shares_user_from o user_ids h)

scope_allows_to :
    (s : ReleaseScope) (o : Option (List Text)) (user_ids : List Text)
    → (s ≡ public)
      ⊎ ((allowed : List Text) × (o ≡ some allowed) × (u : Text) × In u user_ids × In u allowed)
    → scope_allows s o user_ids ≡ true
unfolding scope_allows
scope_allows_to public o user_ids h = refl
scope_allows_to allowlist o user_ids (inl e) = cc
scope_allows_to allowlist o user_ids (inr (allowed, e, u, m, i)) =
    rw e (shares_user_to allowed user_ids u m i)

-- A release passes the audience test exactly when it is public or lists one of the client's users.
pub matches_audience_iff :
    (release : Release) (context : ClientUpdateContext) (audience : AudienceSnapshot)
    → (matches_audience release context audience ≡ true) ↔ FitsAudience release context audience
unfolding matches_audience
matches_audience_iff release context audience = (
  scope_allows_from release.scope _ context.user_ids,
  scope_allows_to release.scope _ context.user_ids,
)

pub matches_channel_iff :
    (release : Release) (context : ClientUpdateContext)
    → (matches_channel release context ≡ true) ↔ FitsChannel release context
unfolding matches_channel
matches_channel_iff release context =
    of_channel release.distribution_channel context.distribution_channel
  where
    of_channel :
        (c d : Option Text)
        → (channel_matches c d ≡ true) ↔ ((c ≡ none) ⊎ ((c ≡ some []) ⊎ (d ≡ c)))
    of_channel none d = (λ _. inl refl, λ _. refl)
    of_channel (some []) d = (λ _. inr (inl refl), λ _. refl)
    of_channel (some (c ∷ t)) d = (
      λ h. inr (inr (sym ((option_beq_iff (some (c ∷ t)) d).0 h))),
      λ h. (option_beq_iff (some (c ∷ t)) d).1 (ground arith),
    )

architecture_matches_from :
    (l : List Text) (p : Text) (policy : ApplicationUpdatePolicy) (o : Option Text)
    → architecture_matches l p policy o ≡ true
    → (a : Text) × (o ≡ some a)
      × (a ≢ [])
      × (In a l ⊎ ((p ≡ macos) × In universal l × In a policy.macos_universal_architectures))
unfolding architecture_matches
architecture_matches_from l p policy none h = cc
architecture_matches_from l p policy (some []) h = cc
architecture_matches_from l p policy (some (c ∷ t)) h = (
  c ∷ t,
  refl,
  (λ e. cc),
  ground (
    arith,
    In_of_includes l (c ∷ t),
    In_of_includes l universal,
    In_of_includes policy.macos_universal_architectures (c ∷ t),
    list_beq_iff p macos,
  ),
)

architecture_matches_to :
    (l : List Text) (p : Text) (policy : ApplicationUpdatePolicy) (a : Text)
    → a ≢ []
    → In a l ⊎ ((p ≡ macos) × In universal l × In a policy.macos_universal_architectures)
    → architecture_matches l p policy (some a) ≡ true
unfolding architecture_matches
architecture_matches_to l p policy [] n h = absurd (n refl)
architecture_matches_to l p policy (c ∷ t) n h = ground (
  arith,
  includes_of_In l (c ∷ t),
  includes_of_In l universal,
  includes_of_In policy.macos_universal_architectures (c ∷ t),
  list_beq_iff p macos,
)

matches_architecture_to :
    (release : Release) (context : ClientUpdateContext) (policy : ApplicationUpdatePolicy)
    → FitsArchitecture release context policy
    → matches_architecture release context policy ≡ true
unfolding matches_architecture
matches_architecture_to release context policy (inl e) = rw e
matches_architecture_to release context policy (inr (a, e, n, h)) = ground (
  arith,
  ap (architecture_matches release.architectures context.platform policy) e,
  architecture_matches_to release.architectures context.platform policy a n h,
)

empty_of_is_empty : (l : List Text) → is_empty l ≡ true → l ≡ []
empty_of_is_empty [] h = refl
empty_of_is_empty (x ∷ l) h = cc

matches_architecture_from :
    (release : Release) (context : ClientUpdateContext) (policy : ApplicationUpdatePolicy)
    → matches_architecture release context policy ≡ true
    → FitsArchitecture release context policy
unfolding matches_architecture
matches_architecture_from release context policy h =
    elim (Bool-cases (is_empty release.architectures)) [
      | inl e ↦ inl (empty_of_is_empty release.architectures e)
      | inr e ↦ inr (
          architecture_matches_from release.architectures context.platform policy
            context.architecture (ground arith))
    ]

pub matches_architecture_iff :
    (release : Release) (context : ClientUpdateContext) (policy : ApplicationUpdatePolicy)
    → (matches_architecture release context policy ≡ true) ↔ FitsArchitecture release context policy
matches_architecture_iff release context policy = (
  matches_architecture_from release context policy,
  matches_architecture_to release context policy,
)
