-- ===== src/Releases/Drafts/Final.antt =====
-- A publication that is asked for, first or again.
use ota_api.Jobs.Rows.{find_where, update_where}
use ota_api.Releases.{DraftContent, DraftStatus, ReleaseDb, StoredDraft, conflict}
use ota_api.Releases.Drafts.Creating.{is_draft_of, sequence_of}
use ota_api.Releases.Drafts.Editing.{
  DraftEdition, lock_draft, locked_draft, update_write, edit_draft, is_draft,
}
use ota_api.Releases.Drafts.Publishing.{
  Published, publish_locked, publish_write, set_published, repeated,
}
use ota_api.Releases.Drafts.Lifecycle.{IsPublication, publish_draft-IsPublication}
use ota_api.Releases.Policy.{Call}
use ota_api.Writes.{WriteError}
use ota_api.Prelude.{
  >>=-eq-ok, Bool-cases, List, Option, Text, [], ap, arith, err, inl, inr, nat_eq, none, ok,
  ok_value, option_text_eq, refl, require, some, subst, sym, text_eq, ℕ, ◌>>=◌, ◌>>◌, ◌∙◌, ◌∷◌, ◌≡◌,
  ◌≤◌, ◌⊎◌,
}

locked_draft-eq-ok : (o : Option StoredDraft) (d : StoredDraft) → locked_draft o ≡ ok d → o ≡ some d
locked_draft-eq-ok none d h = absurd (cc h)
locked_draft-eq-ok (some e) d h = cc h

-- the draft was published before, and the tables stay as they are
pub record IsRepeated (release_id : Text) (db : ReleaseDb) (answer : Published) (after : ReleaseDb)
    : Type 0 where
  pub stored : StoredDraft
  pub found : find_where (is_draft_of release_id) db.drafts ≡ some stored
  pub published : stored.status ≡ DraftStatus.published
  pub sequence : sequence_of stored.published_sequence ≡ some answer.release_sequence
  pub same : after ≡ db
  pub answered : answer ≡ repeated release_id answer.release_sequence

-- the draft is published now
pub record IsFirst (app_name release_id : Text) (call : Call) (db : ReleaseDb) (answer : Published)
    (after : ReleaseDb) : Type 0 where
  pub stored : StoredDraft
  pub found : find_where (is_draft_of release_id) db.drafts ≡ some stored
  pub unpublished : stored.status ≡ DraftStatus.draft
  pub payload : DraftContent
  pub content : stored.payload ≡ some payload
  pub publication : IsPublication app_name release_id call payload db answer after

module _ (app_name release_id : Text) (call : Call) (db after : ReleaseDb) (answer : Published)
    (d : StoredDraft) (found : find_where (is_draft_of release_id) db.drafts ≡ some d) where
  publish_locked-cases :
      (status : DraftStatus) (sequence : Option ℕ)
      → d.status ≡ status
      → sequence_of d.published_sequence ≡ sequence
      → publish_locked app_name release_id status sequence d.payload call db ≡ ok (answer, after)
      → IsRepeated release_id db answer after ⊎ IsFirst app_name release_id call db answer after
  unfolding publish_locked
  publish_locked-cases DraftStatus.draft sequence s q h =
      let (payload, content, publication) =
        publish_draft-IsPublication app_name release_id d.payload call db after answer h in
      inr (record {
        stored = d;
        found = found;
        unpublished = s;
        payload = payload;
        content = content;
        publication = publication;
      })
  publish_locked-cases DraftStatus.published none s q h = absurd (cc h)
  publish_locked-cases DraftStatus.published (some n) s q h =
      let e : (repeated release_id n, db) ≡ (answer, after) =
        ok_value {E = WriteError} _ _ refl (answer, after) h in
      inl (
        subst (λ (r : Published × ReleaseDb). IsRepeated release_id db r.0 r.1) e
          (record {
            stored = d;
            found = found;
            published = s;
            sequence = q;
            same = refl;
            answered = refl;
          }))

-- The steps of a publication that succeeds.
pub publish_write-steps :
    (app_name release_id : Text) (call : Call) (db after : ReleaseDb) (answer : Published)
    → publish_write app_name release_id call db ≡ ok (answer, after)
    → IsRepeated release_id db answer after ⊎ IsFirst app_name release_id call db answer after
unfolding publish_write lock_draft
publish_write-steps app_name release_id call db after answer h =
    let (d, e, q) =
      >>=-eq-ok (locked_draft (find_where (is_draft_of release_id) db.drafts)) _
        {end = (answer, after)} h in
    publish_locked-cases app_name release_id call db after answer d (locked_draft-eq-ok _ d e)
      d.status (sequence_of d.published_sequence) refl refl q

find_draft-update :
    (release_id : Text) (change : StoredDraft → StoredDraft)
    → ((d : StoredDraft) → (change d).release_id ≡ d.release_id)
    → (ds : List StoredDraft) (d : StoredDraft) → find_where (is_draft_of release_id) ds ≡ some d
    → find_where (is_draft_of release_id) (update_where (is_draft_of release_id) change ds)
      ≡ some (change d)
unfolding find_where update_where
find_draft-update release_id change keeps [] d h = absurd (cc h)
find_draft-update release_id change keeps (e ∷ ds) d h =
    elim (Bool-cases (is_draft_of release_id e)) [
      | inl own ↦ ground (arith, own, h, keeps e)
      | inr apart ↦
          ground (arith, apart, h, keeps e, find_draft-update release_id change keeps ds d)
    ]

-- the stored draft behind a publication
abbrev IsSettled : Text → ReleaseDb → ℕ → Type 0
IsSettled release_id after sequence =
    (d : StoredDraft) × (find_where (is_draft_of release_id) after.drafts ≡ some d)
    × (d.status ≡ DraftStatus.published)
    × (sequence_of d.published_sequence ≡ some sequence)

sequence_of-positive : (n : ℕ) → 1 ≤ n → sequence_of (some n) ≡ some n
sequence_of-positive n h = ground (arith, h)

settled :
    (app_name release_id : Text) (call : Call) (db after : ReleaseDb) (answer : Published)
    → IsRepeated release_id db answer after ⊎ IsFirst app_name release_id call db answer after
    → IsSettled release_id after answer.release_sequence
unfolding set_published
settled app_name release_id call db after answer (inl r) = (
  r.stored,
  ap (λ (t : ReleaseDb). find_where (is_draft_of release_id) t.drafts) r.same ∙ r.found,
  r.published,
  r.sequence,
)
settled app_name release_id call db after answer (inr f) =
    let p = f.publication in
    (
      record f.stored {
        status = DraftStatus.published;
        published_sequence = some p.row.release_sequence;
        updated_at = call.now;
      },
      ap (find_where (is_draft_of release_id)) p.drafts
          ∙ find_draft-update release_id
              (λ d. record d {
                status = DraftStatus.published;
                published_sequence = some p.row.release_sequence;
                updated_at = call.now;
              })
              (λ d. refl) db.drafts f.stored f.found,
      refl,
      sequence_of-positive p.row.release_sequence p.sequence.1 ∙ ap some (sym p.sequence.0),
    )

-- Once a publication has succeeded, a further one changes nothing and answers the same sequence,
-- without a task, and an edition of the draft fails with a conflict.
pub publish_write-once :
    (app_name release_id : Text) (call next : Call) (body : DraftEdition) (db after : ReleaseDb)
    (answer : Published)
    → publish_write app_name release_id call db ≡ ok (answer, after)
    → (publish_write app_name release_id next after
        ≡ ok (repeated release_id answer.release_sequence, after))
      × (update_write app_name release_id body next after ≡ err conflict)
unfolding publish_write update_write lock_draft publish_locked
publish_write-once app_name release_id call next body db after answer h =
    let (d, found, s, q) =
      settled app_name release_id call db after answer
        (publish_write-steps app_name release_id call db after answer h) in
    (
      subst
          (λ o.
            (locked_draft o >>= λ d.
            publish_locked app_name release_id d.status (sequence_of d.published_sequence) d.payload
              next after)
            ≡ ok (repeated release_id answer.release_sequence, after))
          (sym found)
          (subst
            (λ s.
              publish_locked app_name release_id s (sequence_of d.published_sequence) d.payload next
                after
              ≡ ok (repeated release_id answer.release_sequence, after))
            (sym s)
            (subst
              (λ n.
                publish_locked app_name release_id DraftStatus.published n d.payload next after
                ≡ ok (repeated release_id answer.release_sequence, after))
              (sym q) refl)),
      subst
          (λ o.
            (locked_draft o >>= λ d.
            require (is_draft d.status) conflict
            >> edit_draft app_name release_id body next after d)
            ≡ err conflict)
          (sym found)
          (subst
            (λ s.
              (require (is_draft s) conflict >> edit_draft app_name release_id body next after d)
              ≡ err conflict)
            (sym s) refl),
    )
