-- ===== src/Releases/DraftAudience/Columns.antt =====
-- The columns of a draft under each statement that writes them.
use ota_api.Jobs.Rows.{update_where}
use ota_api.Releases.{DraftContent, ReleaseDb, StoredDraft, conflict}
use ota_api.Releases.Success.{insert_release_success_audit}
use ota_api.Releases.DraftAudience.{
  DraftAudience, DraftAudienceMutation, change_found, change_open, normalized_audience,
  with_audience,
}
use ota_api.Releases.Drafts.Creating.{
  DraftView, audience_of, create_new, create_or_replay, holds_content, holds_key, insert_draft,
  is_draft_of, new_draft, no_audience, payload_of, replay, to_draft,
}
use ota_api.Releases.Drafts.Editing.{
  DraftEdition, agrees, edit_draft, edited, set_content, stored_users,
}
use ota_api.Releases.Drafts.Normalizing.{normalize_draft}
use ota_api.Releases.Drafts.Publishing.{set_published}
use ota_api.Releases.Policy.{Call, plan_change, read_scope}
use ota_api.Releases.Records.{scope_of, scope_text}
use ota_api.Writes.{WriteError, other_error, query_failed}
use ota_api.Prelude.{
  >>=-eq-ok, All, All-append, Bool, Bool-cases, List, Option, Text, [], any, ap, if◌then◌else◌, inl,
  inr, nat_eq, none, not, ok, ok_value, option_text_eq, refl, require, some, subst, sym, text_eq, ℕ,
  ◌&&◌, ◌++◌, ◌∷◌, ◌≡◌,
}

-- the columns of a draft are those of its payload
abbrev pub IsAgreeing : StoredDraft → Type 0
IsAgreeing d =
    (content : DraftContent)
    → d.payload ≡ some content
    → (d.release_scope ≡ scope_text content.release_scope) × (d.user_ids ≡ some content.user_ids)

All-update :
    {A : Type 0} (P : A → Type 0) (test : A → Bool) (change : A → A)
    → ((a : A) → P a → P (change a))
    → (xs : List A) → All P xs
    → All P (update_where test change xs)
unfolding update_where
All-update P test change keeps [] h = tt
All-update P test change keeps (x ∷ xs) h = elim (Bool-cases (test x)) [
  | inl own ↦ (
    subst (λ b. P (if b then change x else x)) (sym own) (keeps x h.0),
    All-update P test change keeps xs h.1,
  )
  | inr apart ↦ (
    subst (λ b. P (if b then change x else x)) (sym apart) h.0,
    All-update P test change keeps xs h.1,
  )
]

some_content : (c d : DraftContent) → some c ≡ some d → c ≡ d
some_content c d h = cc h

pub content-IsAgreeing :
    (d : StoredDraft) (content : DraftContent) (now : ℕ)
    → IsAgreeing (record d {
      payload = some content;
      release_scope = scope_text content.release_scope;
      user_ids = some content.user_ids;
      updated_at = now;
    })
content-IsAgreeing d content now c h =
    let e = some_content content c h in
    (
      ap (λ (x : DraftContent). scope_text x.release_scope) e,
      ap (λ (x : DraftContent). some x.user_ids) e,
    )

set_content-IsAgreeing :
    (release_id : Text) (content : DraftContent) (now : ℕ) (db : ReleaseDb)
    → All IsAgreeing db.drafts
    → All IsAgreeing (set_content release_id content now db).drafts
unfolding set_content
set_content-IsAgreeing release_id content now db h =
    All-update IsAgreeing (is_draft_of release_id) _ (λ d k. content-IsAgreeing d content now)
      db.drafts h

pub set_published-IsAgreeing :
    (release_id : Text) (sequence now : ℕ) (db : ReleaseDb)
    → All IsAgreeing db.drafts
    → All IsAgreeing (set_published release_id sequence now db).drafts
unfolding set_published
set_published-IsAgreeing release_id sequence now db h =
    All-update IsAgreeing (is_draft_of release_id) _ (λ d k. k) db.drafts h

create_new-IsAgreeing :
    (release_id : Text) (normalized : DraftContent) (key : Option Text) (call : Call)
    (db after : ReleaseDb) (view : DraftView)
    → create_new release_id normalized key call db ≡ ok (view, after)
    → All IsAgreeing db.drafts
    → All IsAgreeing after.drafts
unfolding create_new insert_draft insert_release_success_audit
create_new-IsAgreeing release_id normalized key call db after view h k =
    let (audience, p, h1) =
      >>=-eq-ok (plan_change no_audience (audience_of normalized)) _ {end = (view, after)} h in
    let (inserted, q, h2) =
      >>=-eq-ok (insert_draft (new_draft release_id normalized key call.now) db) _
        {end = (view, after)} h1 in
    let (u, _, e) =
      >>=-eq-ok
        (require (not (any (is_draft_of release_id) db.drafts) && not (holds_key key db.drafts))
          query_failed)
        _ {end = inserted} q in
    let d : ReleaseDb = record db {
      drafts = db.drafts ++ new_draft release_id normalized key call.now ∷ [];
    } in
    let same : d ≡ inserted = ok_value {E = WriteError} d _ refl inserted e in
    subst (λ (r : DraftView × ReleaseDb). All IsAgreeing r.1.drafts)
      (ok_value {E = WriteError} _ _ refl (view, after) h2)
      (subst (λ (t : ReleaseDb). All IsAgreeing t.drafts) same
        (All-append IsAgreeing db.drafts _ k (
          content-IsAgreeing (new_draft release_id normalized key call.now) normalized call.now,
          tt,
        )))

pub create_or_replay-IsAgreeing :
    (release_id : Text) (normalized : DraftContent) (key : Option Text) (call : Call)
    (db after : ReleaseDb) (view : DraftView) (o : Option StoredDraft)
    → create_or_replay release_id normalized key call db o ≡ ok (view, after)
    → All IsAgreeing db.drafts
    → All IsAgreeing after.drafts
unfolding create_or_replay replay
create_or_replay-IsAgreeing release_id normalized key call db after view none h k =
    create_new-IsAgreeing release_id normalized key call db after view h k
create_or_replay-IsAgreeing release_id normalized key call db after view (some existing) h k =
    let (u, _, h1) =
      >>=-eq-ok (require (holds_content existing.payload normalized) conflict) _
        {end = (view, after)} h in
    let (v, e, h2) = >>=-eq-ok (to_draft existing) _ {end = (view, after)} h1 in
    subst (λ (r : DraftView × ReleaseDb). All IsAgreeing r.1.drafts)
      (ok_value {E = WriteError} _ _ refl (view, after) h2) k

pub edit_draft-IsAgreeing :
    (app_name release_id : Text) (body : DraftEdition) (call : Call) (db after : ReleaseDb)
    (view : DraftView) (d : StoredDraft)
    → edit_draft app_name release_id body call db d ≡ ok (view, after)
    → All IsAgreeing db.drafts
    → All IsAgreeing after.drafts
unfolding edit_draft insert_release_success_audit
edit_draft-IsAgreeing app_name release_id body call db after view d h k =
    let (current, e1, h1) = >>=-eq-ok (payload_of d.payload) _ {end = (view, after)} h in
    let (users, e2, h2) = >>=-eq-ok (stored_users conflict d.user_ids) _ {end = (view, after)} h1 in
    let (u, e3, h3) =
      >>=-eq-ok (require (agrees d current users) conflict) _ {end = (view, after)} h2 in
    let (normalized, e4, h4) =
      >>=-eq-ok (normalize_draft app_name (edited current body)) _ {end = (view, after)} h3 in
    let (audience, e5, h5) =
      >>=-eq-ok
        (plan_change (record { scope = some current.release_scope; user_ids = users })
          (audience_of normalized))
        _ {end = (view, after)} h4 in
    subst (λ (r : DraftView × ReleaseDb). All IsAgreeing r.1.drafts)
      (ok_value {E = WriteError} _ _ refl (view, after) h5)
      (set_content-IsAgreeing release_id normalized call.now db k)

change_open-IsAgreeing :
    (app_name release_id : Text) (mutation : DraftAudienceMutation) (call : Call) (d : StoredDraft)
    (db after : ReleaseDb) (answer : Option DraftAudience)
    → change_open app_name release_id mutation call d db ≡ ok (answer, after)
    → All IsAgreeing db.drafts
    → All IsAgreeing after.drafts
unfolding change_open insert_release_success_audit
change_open-IsAgreeing app_name release_id mutation call d db after answer h k =
    let (payload, e1, h1) = >>=-eq-ok (payload_of d.payload) _ {end = (answer, after)} h in
    let (users, e2, h2) =
      >>=-eq-ok (stored_users other_error d.user_ids) _ {end = (answer, after)} h1 in
    let (normalized, e3, h3) =
      >>=-eq-ok (normalized_audience app_name mutation payload users d.release_scope) _
        {end = (answer, after)} h2 in
    let (before, e4, h4) =
      >>=-eq-ok (read_scope (scope_of d.release_scope) users) _ {end = (answer, after)} h3 in
    let (audience, e5, h5) =
      >>=-eq-ok
        (plan_change before
          (record { scope = some normalized.release_scope; user_ids = normalized.user_ids }))
        _ {end = (answer, after)} h4 in
    subst (λ (r : Option DraftAudience × ReleaseDb). All IsAgreeing r.1.drafts)
      (ok_value {E = WriteError} _ _ refl (answer, after) h5)
      (set_content-IsAgreeing release_id (with_audience payload normalized) call.now db k)

pub change_found-IsAgreeing :
    (app_name release_id : Text) (mutation : DraftAudienceMutation) (call : Call)
    (db after : ReleaseDb) (answer : Option DraftAudience) (o : Option StoredDraft)
    → change_found app_name release_id mutation call db o ≡ ok (answer, after)
    → All IsAgreeing db.drafts
    → All IsAgreeing after.drafts
unfolding change_found
change_found-IsAgreeing app_name release_id mutation call db after answer none h k =
    subst (λ (r : Option DraftAudience × ReleaseDb). All IsAgreeing r.1.drafts)
      (ok_value {E = WriteError} _ _ refl (answer, after) h) k
change_found-IsAgreeing app_name release_id mutation call db after answer (some d) h k =
    change_open-IsAgreeing app_name release_id mutation call d db after answer h k
