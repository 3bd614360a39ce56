-- ===== src/Releases/Drafts/Marking.antt =====
-- The artifact and the drafts behind a publication, independently of the code that marks them.
use ota_api.Jobs.Rows.{find_where, update_where}
use ota_api.Releases.{
  ArtifactStatus, DraftStatus, ReleaseDb, StoredArtifact, StoredDraft, other_status,
}
use ota_api.Releases.Drafts.Creating.{is_draft_of}
use ota_api.Releases.Drafts.Publishing.{
  available_artifact, is_artifact, lock_artifact, published_artifacts,
}
use ota_api.Prelude.{
  Bool, List, Option, Text, [], arith, if◌then◌else◌, inl, inr, map, nat_eq, none, ok,
  option_text_eq, refl, some, text_eq, ℕ, ◌==◌, ◌∷◌, ◌≡◌, ◌⊎◌,
}

-- The artifact that a draft names, which is one that is pending or published; an empty name is none.
pub IsChosen : Option Text → List StoredArtifact → Option StoredArtifact → Type 0
IsChosen none artifacts chosen = chosen ≡ none
IsChosen (some []) artifacts chosen = chosen ≡ none
IsChosen (some (c ∷ t)) artifacts chosen =
    (a : StoredArtifact) × (chosen ≡ some a)
    × (find_where (λ b. b.artifact_id == c ∷ t) artifacts ≡ some a)
    × ((a.status ≡ ArtifactStatus.pending) ⊎ (a.status ≡ ArtifactStatus.published))

-- The artifacts behind the publication of one.
pub artifacts_behind : Option StoredArtifact → ℕ → List StoredArtifact → List StoredArtifact
artifacts_behind none now artifacts = artifacts
artifacts_behind (some a) now artifacts =
    map
      (λ b.
        if b.artifact_id == a.artifact_id
        then record b { status = ArtifactStatus.published; updated_at = now }
        else b)
      artifacts

-- The drafts behind the publication of one under a sequence.
pub drafts_behind : Text → ℕ → ℕ → List StoredDraft → List StoredDraft
drafts_behind release_id sequence now drafts =
    map
      (λ d.
        if d.release_id == release_id
        then record d {
          status = DraftStatus.published;
          published_sequence = some sequence;
          updated_at = now;
        }
        else d)
      drafts

update_where-map :
    {A : Type 0} (test : A → Bool) (change : A → A) (xs : List A)
    → update_where test change xs ≡ map (λ x. if test x then change x else x) xs
unfolding update_where
update_where-map test change [] = refl
update_where-map test change (x ∷ xs) = ground (arith, update_where-map test change xs)

pub published_artifacts_lem :
    (o : Option StoredArtifact) (now : ℕ) (artifacts : List StoredArtifact)
    → published_artifacts o now artifacts ≡ artifacts_behind o now artifacts
unfolding published_artifacts artifacts_behind
published_artifacts_lem none now artifacts = refl
published_artifacts_lem (some a) now artifacts =
    update_where-map (is_artifact a.artifact_id)
      (λ b. record b { status = ArtifactStatus.published; updated_at = now }) artifacts

available_artifact-status :
    (o chosen : Option StoredArtifact)
    → available_artifact o ≡ ok chosen
    → (a : StoredArtifact) × (chosen ≡ some a)
      × (o ≡ some a)
      × ((a.status ≡ ArtifactStatus.pending) ⊎ (a.status ≡ ArtifactStatus.published))
unfolding available_artifact
available_artifact-status none chosen h = absurd (cc h)
available_artifact-status (some a) chosen h = of_status a.status refl
  where
    of_status :
        (s : ArtifactStatus)
        → a.status ≡ s
        → (b : StoredArtifact) × (chosen ≡ some b)
          × (some a ≡ some b)
          × ((b.status ≡ ArtifactStatus.pending) ⊎ (b.status ≡ ArtifactStatus.published))
    of_status ArtifactStatus.pending e = (a, ground (arith, e, h), refl, inl e)
    of_status ArtifactStatus.published e = (a, ground (arith, e, h), refl, inr e)
    of_status (other_status t) e = absurd (ground (arith, e, h))

pub lock_artifact-IsChosen :
    (name : Option Text) (db : ReleaseDb) (chosen : Option StoredArtifact)
    → lock_artifact name db ≡ ok chosen
    → IsChosen name db.artifacts chosen
unfolding lock_artifact IsChosen
lock_artifact-IsChosen none db chosen h = cc h
lock_artifact-IsChosen (some []) db chosen h = cc h
lock_artifact-IsChosen (some (c ∷ t)) db chosen h =
    let (a, e, found, s) = available_artifact-status _ chosen h in (a, e, found, s)

pub published_drafts_lem :
    (release_id : Text) (sequence now : ℕ) (drafts : List StoredDraft)
    → update_where
        (is_draft_of release_id)
        (λ d. record d {
          status = DraftStatus.published;
          published_sequence = some sequence;
          updated_at = now;
        })
        drafts
      ≡ drafts_behind release_id sequence now drafts
unfolding drafts_behind
published_drafts_lem release_id sequence now drafts =
    update_where-map (is_draft_of release_id)
      (λ d. record d {
        status = DraftStatus.published;
        published_sequence = some sequence;
        updated_at = now;
      })
      drafts
