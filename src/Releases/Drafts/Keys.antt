-- ===== src/Releases/Drafts/Keys.antt =====
-- The idempotency key of a draft's creation.
use ota_api.Jobs.Rows.{find_where}
use ota_api.Releases.{DraftContent, ReleaseDb, StoredDraft}
use ota_api.Releases.Drafts.Creating.{
  DraftView, audience_of, create_new, has_key, insert_draft, is_draft_of, new_draft, no_audience,
  payload_of, view_of, create_or_replay, create_write, find_by_key,
}
use ota_api.Releases.Drafts.Normalizing.{normalize_draft}
use ota_api.Releases.Policy.{Call, plan_change}
use ota_api.Releases.Success.{insert_release_success_audit}
use ota_api.Writes.{WriteError, query_failed}
use ota_api.Prelude.{
  >>=-eq-ok, Bool, List, Option, Text, [], any, ap, arith, beq_refl, nat_eq, none, not, ok,
  ok_value, option_text_eq, refl, require, require-eq-ok, some, subst, sym, text_eq, true, ◌&&◌,
  ◌++◌, ◌∙◌, ◌∷◌, ◌≡◌, ◌≢◌,
}

-- what the creation of a draft leaves
pub record IsCreated (db : ReleaseDb) (key : Text) (view : DraftView) (after : ReleaseDb)
    : Type 0 where
  pub existing : StoredDraft
  pub found : find_where (has_key key) after.drafts ≡ some existing
  pub content : existing.payload ≡ some view.content
  pub answered : view_of existing view.content ≡ view

pub payload_of-eq-ok :
    (o : Option DraftContent) (content : DraftContent)
    → payload_of o ≡ ok content
    → o ≡ some content
payload_of-eq-ok none content h = absurd (cc h)
payload_of-eq-ok (some c) content h = cc h

any-added :
    {A : Type 0} (test : A → Bool) (xs : List A) (x : A)
    → test x ≡ true
    → any test (xs ++ x ∷ []) ≡ true
unfolding any
any-added test [] x t = rw t refl
any-added test (y ∷ xs) x t = ground (arith, any-added test xs x t)

holds-created :
    (release_id : Text) (normalized : DraftContent) (call : Call) (db after : ReleaseDb)
    (view : DraftView)
    → create_new release_id normalized (some []) call db ≡ ok (view, after)
    → any (has_key []) after.drafts ≡ true
unfolding create_new insert_draft insert_release_success_audit
holds-created release_id normalized call db after view h =
    let (audience, p, h1) =
      >>=-eq-ok (plan_change no_audience (audience_of normalized)) _ {end = (view, after)} h in
    let (inserted, q, h2) =
      >>=-eq-ok (insert_draft (new_draft release_id normalized (some []) call.now) db) _
        {end = (view, after)} h1 in
    let (u, _, e) =
      >>=-eq-ok
        (require (not (any (is_draft_of release_id) db.drafts) && not (any (has_key []) db.drafts))
          query_failed)
        _ {end = inserted} q in
    let d : ReleaseDb = record db {
      drafts = db.drafts ++ new_draft release_id normalized (some []) call.now ∷ [];
    } in
    let same : d ≡ inserted = ok_value {E = WriteError} d _ refl inserted e in
    subst (λ (r : DraftView × ReleaseDb). any (has_key []) r.1.drafts ≡ true)
      (ok_value {E = WriteError} _ _ refl (view, after) h2)
      (ap (λ (t : ReleaseDb). any (has_key []) t.drafts) (sym same)
        ∙ any-added (has_key []) db.drafts _ (beq_refl {A = Option Text} (some [])))

create_new-refused :
    (release_id : Text) (normalized : DraftContent) (call : Call) (db : ReleaseDb)
    (again : DraftView × ReleaseDb)
    → any (has_key []) db.drafts ≡ true
    → create_new release_id normalized (some []) call db ≢ ok again
unfolding create_new insert_draft
create_new-refused release_id m call db again held k =
    let (audience, _, k3) = >>=-eq-ok (plan_change no_audience (audience_of m)) _ {end = again} k in
    let (inserted, q, _) =
      >>=-eq-ok (insert_draft (new_draft release_id m (some []) call.now) db) _ {end = again} k3 in
    let (u, free, _) =
      >>=-eq-ok
        (require (not (any (is_draft_of release_id) db.drafts) && not (any (has_key []) db.drafts))
          query_failed)
        _ {end = inserted} q in
    ground (arith, held, require-eq-ok _ query_failed u free)

-- An empty key is not looked up but is stored, in a column whose values are distinct: once a draft was
-- created with one, no other creation with an empty key succeeds, the repetition of the request included.
pub create_write-empty_key :
    (app_name release_id other_id : Text) (body other : DraftContent) (call next : Call)
    (db after : ReleaseDb) (view : DraftView) (again : DraftView × ReleaseDb)
    → create_write app_name release_id body (some []) call db ≡ ok (view, after)
    → create_write app_name other_id other (some []) next after ≢ ok again
unfolding create_write find_by_key create_or_replay create_new insert_draft
create_write-empty_key app_name release_id other_id body other call next db after view again h k =
    let (n, e, h2) =
      >>=-eq-ok (normalize_draft app_name body)
        (λ n. create_or_replay release_id n (some []) call db none) {end = (view, after)} h in
    let held = holds-created release_id n call db after view h2 in
    let (m, _, k2) =
      >>=-eq-ok (normalize_draft app_name other)
        (λ m. create_or_replay other_id m (some []) next after none) {end = again} k in
    create_new-refused other_id m next after again held k2
