-- ===== src/Releases/Tests.antt =====
-- The theorems on releases and drafts at concrete tables.
use ota_api.Releases.DraftAudience.Columns.{IsAgreeing, content-IsAgreeing}
use ota_api.Contracts.Version.{is_numeral}
use ota_api.Releases.DraftAudience.Agreement.{History, here, publishes, then_one, writes-IsAgreeing}
use ota_api.Releases.Drafts.Final.{publish_write-once}
use ota_api.Releases.Drafts.Publication.{IsAnswered, IsPublished, publish_write-cases}
use ota_api.Releases.Drafts.Publishing.{Published, publish_write, repeated}
use ota_api.Releases.Drafts.Editing.{DraftEdition, update_write}
use ota_api.Releases.Drafts.Keys.{create_write-empty_key}
use ota_api.Releases.Records.RoundTrip.{map_stored_release_record-write_values}
use ota_api.Releases.Records.{
  ReleaseWriteInput, invalid_context, map_stored_release_record, release_write_values,
}
use ota_api.Releases.Policy.Outcomes.{IsFailed, mutate_policy-cases}
use ota_api.Releases.Policy.Audited.{IsAudited}
use ota_api.Releases.Policy.Revisions.{policy_write-once}
use ota_api.Releases.Policy.Applied.{IsApplied, change-IsApplied}
use ota_api.Contracts.Releases.{full, public}
use ota_api.Releases.{
  DraftContent, ReleaseDb, ReleaseRow, ReleaseUser, StoredDraft, conflict, texts,
}
use ota_api.Releases.Policy.{Call, policy_write, mutate_policy}
use ota_api.Releases.Policy.Effects.{
  PolicyChange, change_scope, mutation_of, replace_users, set_enabled,
}
use ota_api.Releases.Drafts.Creating.{new_draft, DraftView, create_write, view_of}
use ota_api.Writes.{WriteError, Driver, acknowledged, query_failed, reaches_write}
use ota_api.Prelude.{
  All, Option, Result, Text, [], all, any, arith, err, false, list_beq, nat_eq, none, ok,
  option_text_eq, refl, some, split, text, text_eq, true, ℕ, ◌∷◌, ◌≡◌, ◌≢◌, ◌⊎◌,
}

abbrev a_date : ℕ → Text
a_date n = n ∷ []

abbrev a_row : ReleaseRow
a_row = record {
  release_sequence = 1;
  app_name = text "shop";
  release_id = text "r1";
  release_scope = text "allowlist";
  policy_revision = 1;
  target_version = text "1.2.0";
  platforms = texts (text "ios" ∷ []);
  architectures = texts [];
  distribution_channel = none;
  update_type = text "full";
  release_notes = none;
  artifact_size_bytes = none;
  installer_source_url = some (text "u");
  bundle_url = none;
  is_enabled = 1;
  is_mandatory = 0;
  show_update_dialog = 1;
  source_ip = none;
  created_at = 5;
  updated_at = 5;
}

abbrev a_user : ReleaseUser
a_user = record { release_id = text "r1"; user_id = text "shop:ios:u"; created_at = 5 }

abbrev a_draft_content : DraftContent
a_draft_content = record {
  target_version = text "1.3.0";
  platforms = text "ios" ∷ [];
  architectures = none;
  distribution_channel = none;
  update_type = full;
  release_scope = public;
  user_ids = [];
  release_notes = none;
  artifact_id = none;
  installer_source_url = some (text "u");
  bundle_url = none;
  artifact_size_bytes = none;
  enabled = none;
  mandatory = none;
  show_update_dialog = none;
}

abbrev a_draft : StoredDraft
a_draft = new_draft (text "d1") a_draft_content none 5

abbrev a_db : ReleaseDb
a_db = record {
  catalog_revision = some 7;
  has_releases = true;
  has_release_users = true;
  has_drafts = true;
  next_sequence = 2;
  releases = a_row ∷ [];
  release_users = a_user ∷ [];
  drafts = a_draft ∷ [];
  artifacts = [];
  tasks = [];
  audits = [];
}

abbrev a_call : Call
a_call = record {
  context = record {
    request_id = text "q";
    source_ip = none;
    actor_key_id = none;
    actor_type = none;
    actor_name = none;
  };
  operation_id = text "o1";
  task_id = text "t1";
  now = 9;
}

-- the tables behind a write
abbrev after_of : {A : Type 0} → Result WriteError (A × ReleaseDb) → ReleaseDb
after_of (ok (a, after)) = after
after_of (err e) = a_db

abbrev to_public : PolicyChange
to_public = change_scope public (some 1)

abbrev public_write : Result WriteError (ℕ × ReleaseDb)
public_write =
    policy_write (text "shop") (text "r1") a_call
      (mutation_of a_date (text "shop") (text "r1") 9 to_public) a_db

public_written : public_write ≡ ok (2, after_of public_write)
unfolding policy_write list_beq mutation_of any
public_written = refl

change-IsApplied_example :
    IsApplied (text "shop") (text "r1") a_call to_public a_db 2 (after_of public_write)
change-IsApplied_example =
    change-IsApplied a_date (text "shop") (text "r1") a_call to_public a_db (after_of public_write)
      2 public_written

policy_write-once_example :
    policy_write
      (text "shop")
      (text "r1")
      a_call
      (mutation_of a_date (text "shop") (text "r1") 9 (replace_users [] (some 1)))
      (after_of public_write)
    ≡ err conflict
unfolding mutation_of
policy_write-once_example =
    policy_write-once a_date (text "shop") (text "r1") a_call a_call to_public
      (replace_users [] (some 1)) 1 2 a_db (after_of public_write) refl refl public_written

-- a driver whose calls all end well
abbrev a_driver : Driver
a_driver = record {
  connects = true;
  acquires = some true;
  begins = true;
  reads =
      some (some (record { table_prefix = text "p"; status = text "ready"; schema_version = 1 }));
  commits = acknowledged;
  stays_active = true;
  rolls_back = true;
  unlocks = true;
  releases = true;
  thrown = query_failed;
}

mutate_policy-cases_example :
    let mutation = mutation_of a_date (text "shop") (text "r2") 9 (set_enabled false) in
    let (after, result) =
      mutate_policy a_driver a_driver (text "p") (text "shop") (text "r2") a_call mutation a_db in
    ((revision : ℕ)
      → result ≡ ok revision
      → IsApplied (text "shop") (text "r2") a_call (set_enabled false) a_db revision after
        × IsAudited a_date (text "shop") (text "r2") a_call (set_enabled false) a_db after)
    × ((after ≡ a_db)
        ⊎ (((revision : ℕ) × IsApplied
                (text "shop")
                (text "r2")
                a_call
                (set_enabled false)
                a_db
                revision
                after
              × IsAudited a_date (text "shop") (text "r2") a_call (set_enabled false) a_db after)
            ⊎ ((e : WriteError) × (result ≡ err e)
                × IsFailed
                    (text "r2")
                    a_call
                    (set_enabled false)
                    (reaches_write a_driver (text "p"))
                    e
                    a_db
                    after)))
mutate_policy-cases_example =
    mutate_policy-cases a_date a_driver a_driver (text "p") (text "shop") (text "r2") a_call
      (set_enabled false) a_db

abbrev an_input : ReleaseWriteInput
an_input = record {
  app_name = text "shop";
  release_id = text "r3";
  target_version = text "1.3.0";
  platforms = [];
  architectures = [];
  distribution_channel = none;
  update_type = full;
  release_scope = public;
  release_notes = none;
  artifact_size_bytes = none;
  installer_source_url = some (text "u");
  bundle_url = none;
  enabled = true;
  mandatory = true;
  show_update_dialog = true;
  created_at = 9;
  source_ip = none;
}

abbrev or_a_row : Result WriteError ReleaseRow → ReleaseRow
or_a_row (ok row) = row
or_a_row (err e) = a_row

an_input_valued : release_write_values an_input 4 ≡ ok (or_a_row (release_write_values an_input 4))
unfolding release_write_values split is_numeral all
an_input_valued = refl

map_stored_release_record-write_values_example :
    map_stored_release_record a_date (or_a_row (release_write_values an_input 4))
    ≡ err invalid_context
map_stored_release_record-write_values_example =
    map_stored_release_record-write_values a_date an_input 4
      (or_a_row (release_write_values an_input 4)) an_input_valued (omega arith)

abbrev a_view : Result WriteError (DraftView × ReleaseDb) → DraftView
a_view (ok (view, after)) = view
a_view (err e) = view_of a_draft a_draft_content

abbrev creation : Option Text → Result WriteError (DraftView × ReleaseDb)
creation key = create_write (text "shop") (text "d2") a_draft_content key a_call a_db

abbrev a_normalized : DraftContent
a_normalized = record a_draft_content { architectures = some [] }

created_with_empty_key :
    creation (some []) ≡ ok (a_view (creation (some [])), after_of (creation (some [])))
unfolding create_write list_beq
created_with_empty_key = refl

create_write-empty_key_example :
    create_write
      (text "shop")
      (text "d3")
      a_draft_content
      (some [])
      a_call
      (after_of (creation (some [])))
    ≢ ok (a_view (creation (some [])), a_db)
create_write-empty_key_example =
    create_write-empty_key (text "shop") (text "d2") (text "d3") a_draft_content a_draft_content
      a_call a_call a_db (after_of (creation (some []))) (a_view (creation (some [])))
      (a_view (creation (some [])), a_db) created_with_empty_key

abbrev publication : Result WriteError (Published × ReleaseDb)
publication = publish_write (text "shop") (text "d1") a_call a_db

abbrev an_answer : Published
an_answer = record {
  release_id = text "d1";
  release_sequence = 2;
  task_id = some (text "t1");
  operation_id = some (text "o1");
}

published_draft : publication ≡ ok (an_answer, after_of publication)
unfolding publish_write list_beq split is_numeral
published_draft = refl

publish_write-cases_example :
    IsAnswered (text "d1") a_db an_answer (after_of publication)
    ⊎ IsPublished (text "shop") (text "d1") a_call a_db an_answer (after_of publication)
publish_write-cases_example =
    publish_write-cases (text "shop") (text "d1") a_call a_db (after_of publication) an_answer
      published_draft

abbrev no_edition : DraftEdition
no_edition = record {
  target_version = none;
  platforms = none;
  architectures = none;
  distribution_channel = none;
  update_type = none;
  release_scope = none;
  user_ids = none;
  release_notes = none;
  artifact_id = none;
  installer_source_url = none;
  bundle_url = none;
  artifact_size_bytes = none;
  enabled = none;
  mandatory = none;
  show_update_dialog = none;
}

publish_write-once_example :
    (publish_write (text "shop") (text "d1") a_call (after_of publication)
      ≡ ok (repeated (text "d1") 2, after_of publication))
    × (update_write (text "shop") (text "d1") no_edition a_call (after_of publication)
        ≡ err conflict)
publish_write-once_example =
    publish_write-once (text "shop") (text "d1") a_call a_call no_edition a_db
      (after_of publication) an_answer published_draft

published_once : History a_date (text "shop") a_db (after_of publication)
published_once = then_one here (publishes (text "d1") a_call an_answer published_draft)

writes-IsAgreeing_example : All IsAgreeing (after_of publication).drafts
writes-IsAgreeing_example =
    writes-IsAgreeing a_date (text "shop") a_db published_once
      (content-IsAgreeing a_draft a_draft_content 5, tt)
