-- ===== src/Releases/DraftAudience/Agreement.antt =====
-- The audience that a draft's row has twice, in its columns and in its payload.
use ota_api.Releases.DraftAudience.Columns.{
  IsAgreeing, set_published-IsAgreeing, create_or_replay-IsAgreeing, edit_draft-IsAgreeing,
  change_found-IsAgreeing,
}
use ota_api.Releases.{DraftContent, ReleaseDb, conflict, bad_request}
use ota_api.Releases.DraftAudience.{
  DraftAudience, DraftAudienceMutation, draft_audience_write, open_draft,
}
use ota_api.Releases.Drafts.Creating.{DraftView, create_write, find_by_key, is_too_long}
use ota_api.Releases.Drafts.Editing.{DraftEdition, update_write, is_draft, lock_draft}
use ota_api.Releases.Drafts.Normalizing.{normalize_draft}
use ota_api.Releases.Drafts.Publishing.{Published, publish_write}
use ota_api.Releases.Drafts.Final.{publish_write-steps}
use ota_api.Releases.Policy.{Call, policy_write}
use ota_api.Releases.Policy.Effects.{PolicyChange, mutation_of}
use ota_api.Releases.Policy.Revisions.{change-IsStepped}
use ota_api.Prelude.{
  >>=-eq-ok, All, Option, Text, inl, inr, nat_eq, not, ok, option_text_eq, require, subst, sym,
  text_eq, ℕ, ◌≡◌,
}

-- one write to an application's releases and drafts
pub data TableWrite (date : ℕ → Text) (app_name : Text) (db after : ReleaseDb) : Type 0 where
  creates :
      (release_id : Text) (body : DraftContent) (key : Option Text) (call : Call) (view : DraftView)
      → create_write app_name release_id body key call db ≡ ok (view, after)
      → TableWrite date app_name db after
  edits :
      (release_id : Text) (body : DraftEdition) (call : Call) (view : DraftView)
      → update_write app_name release_id body call db ≡ ok (view, after)
      → TableWrite date app_name db after
  retargets :
      (release_id : Text) (mutation : DraftAudienceMutation) (call : Call)
      (answer : Option DraftAudience)
      → draft_audience_write app_name release_id mutation call db ≡ ok (answer, after)
      → TableWrite date app_name db after
  publishes :
      (release_id : Text) (call : Call) (answer : Published)
      → publish_write app_name release_id call db ≡ ok (answer, after)
      → TableWrite date app_name db after
  changes :
      (release_id : Text) (call : Call) (change : PolicyChange) (revision : ℕ)
      → policy_write app_name release_id call
          (mutation_of date app_name release_id call.now change)
          db
        ≡ ok (revision, after)
      → TableWrite date app_name db after

pub data History (date : ℕ → Text) (app_name : Text) (db : ReleaseDb) : ReleaseDb → Type 0 where
  here : History date app_name db db
  then_one :
      {mid after : ReleaseDb}
      → History date app_name db mid
      → TableWrite date app_name mid after
      → History date app_name db after

module _ (date : ℕ → Text) (app_name : Text) where
  write-IsAgreeing :
      (db after : ReleaseDb)
      → TableWrite date app_name db after
      → All IsAgreeing db.drafts
      → All IsAgreeing after.drafts
  unfolding create_write update_write draft_audience_write
  write-IsAgreeing db after (creates release_id body key call view h) k =
      let (u, _, h1) =
        >>=-eq-ok (require (not (is_too_long key)) bad_request) _ {end = (view, after)} h in
      let (n, _, h2) = >>=-eq-ok (normalize_draft app_name body) _ {end = (view, after)} h1 in
      create_or_replay-IsAgreeing release_id n key call db after view (find_by_key key db.drafts) h2
        k
  write-IsAgreeing db after (edits release_id body call view h) k =
      let (d, _, h1) = >>=-eq-ok (lock_draft release_id db) _ {end = (view, after)} h in
      let (u, _, h2) =
        >>=-eq-ok (require (is_draft d.status) conflict) _ {end = (view, after)} h1 in
      edit_draft-IsAgreeing app_name release_id body call db after view d h2 k
  write-IsAgreeing db after (retargets release_id mutation call answer h) k =
      change_found-IsAgreeing app_name release_id mutation call db after answer
        (open_draft release_id db) h k
  write-IsAgreeing db after (publishes release_id call answer h) k =
      elim (publish_write-steps app_name release_id call db after answer h) [
        | inl r ↦ subst (λ (t : ReleaseDb). All IsAgreeing t.drafts) (sym r.same) k
        | inr f ↦
            subst (All IsAgreeing) (sym f.publication.drafts)
              (set_published-IsAgreeing release_id f.publication.row.release_sequence call.now db k)
      ]
  write-IsAgreeing db after (changes release_id call change revision h) k =
      subst (All IsAgreeing)
        (sym ((change-IsStepped date app_name release_id call change db after revision h).drafts)) k

-- Whatever is created, edited, given another audience, published or changed, in any order, the scope
-- and the users in the columns of every draft are those of its payload, if they were so before.
pub writes-IsAgreeing :
    (date : ℕ → Text) (app_name : Text) (db : ReleaseDb) {after : ReleaseDb}
    → History date app_name db after
    → All IsAgreeing db.drafts
    → All IsAgreeing after.drafts
writes-IsAgreeing date app_name db here k = k
writes-IsAgreeing date app_name db (then_one {mid} {after} ws w) k =
    write-IsAgreeing date app_name mid after w (writes-IsAgreeing date app_name db ws k)
