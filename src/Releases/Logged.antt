-- ===== src/Releases/Logged.antt =====
-- What the rows of a task and of a success are to say, independently of the code that writes them:
-- src/audit/release-success-audit.ts and the insertion of a publish task.
use ota_api.Audience.Changes.{Part, Summary}
use ota_api.Releases.{AuditRow, PublishTask, ReleaseAction, new_task}
use ota_api.Releases.Success.{ReleaseSuccessAudit, audience_summary, audit_row, audit_rows, details}
use ota_api.Jobs.Policy.{PublishTaskStatus}
use ota_api.Prelude.{
  List, Option, Text, [], map, nat_eq, none, option_text_eq, refl, some, subst, text, text_eq, ℕ,
  ◌+◌, ◌∷◌, ◌≡◌,
}

-- A task that waits for its first run, at once, for a revision of the catalog.
pub record IsQueued (task_id operation_id release_id : Text) (action : ReleaseAction)
    (revision now : ℕ) (t : PublishTask) : Type 0 where
  pub id : t.task.task_id ≡ task_id
  pub status : t.task.status ≡ PublishTaskStatus.pending
  pub attempts : (t.task.attempt_count ≡ 0) × (t.task.max_attempts ≡ 5)
  pub due : t.task.next_run_at ≡ some now
  pub lease : (t.task.lease_owner ≡ none) × (t.task.lease_token ≡ 0) × (t.task.lease_until ≡ none)
  pub ends : (t.task.last_error_code ≡ none) × (t.task.finished_at ≡ none)
  pub times : (t.task.created_at ≡ now) × (t.task.updated_at ≡ now)
  pub purpose : (t.operation_id ≡ operation_id) × (t.release_id ≡ release_id) × (t.action ≡ action)
  pub requested : t.requested_revision ≡ revision

-- The actor of a request that names none is the system.
pub logged_actor : Option Text → Text
logged_actor none = text "system"
logged_actor (some actor) = actor

pub logged_summary : Option (Summary × List Part) → Option Summary
logged_summary none = none
logged_summary (some plan) = some plan.0

-- One row for each part of a change of the audience, and a single one without a part otherwise.
pub logged_parts : Option (Summary × List Part) → List (Option Part)
logged_parts none = none ∷ []
logged_parts (some plan) = map some plan.1

-- A row of a success, whose columns are those of the request and of the change.
pub record IsRow (x : ReleaseSuccessAudit) (part_no : ℕ) (part : Option Part) (row : AuditRow)
    : Type 0 where
  pub operation : row.operation_id ≡ x.operation_id
  pub number : row.part_no ≡ part_no
  pub context : row.context ≡ x.context
  pub actor : row.actor_type ≡ logged_actor x.context.actor_type
  pub action : row.action ≡ x.action
  pub target : (row.target_type ≡ x.target_type) × (row.release_id ≡ x.release_id)
  pub task : row.task_id ≡ x.task_id
  pub revisions :
      (row.revision_before ≡ x.revision_before) × (row.revision_after ≡ x.revision_after)
  pub summary : row.change_summary ≡ x.change_summary
  pub audience : row.audience ≡ logged_summary x.audience
  pub detail : row.change_detail ≡ part
  pub success : row.error_code ≡ none
  pub time : row.created_at ≡ x.now

-- One row for each of the parts, in their order, numbered from a number on, and no other.
pub IsLogged : ReleaseSuccessAudit → ℕ → List (Option Part) → List AuditRow → Type 0
IsLogged x part_no [] [] = Unit
IsLogged x part_no (part ∷ parts) (row ∷ rows) =
    IsRow x part_no part row × IsLogged x (part_no + 1) parts rows
IsLogged x part_no [] (row ∷ rows) = ⊥
IsLogged x part_no (part ∷ parts) [] = ⊥

actor_lem : (o : Option Text) → elim o [ none ↦ text "system" | some t ↦ t ] ≡ logged_actor o
unfolding logged_actor
actor_lem none = refl
actor_lem (some t) = refl

summary_lem : (o : Option (Summary × List Part)) → audience_summary o ≡ logged_summary o
unfolding logged_summary
summary_lem none = refl
summary_lem (some (summary, parts)) = refl

parts_lem : (o : Option (Summary × List Part)) → details o ≡ logged_parts o
unfolding logged_parts
parts_lem none = refl
parts_lem (some (summary, parts)) = refl

audit_row-IsRow :
    (x : ReleaseSuccessAudit) (part_no : ℕ) (part : Option Part)
    → IsRow x part_no part (audit_row x part_no part)
unfolding audit_row
audit_row-IsRow x part_no part = record {
  operation = refl;
  number = refl;
  context = refl;
  actor = actor_lem x.context.actor_type;
  action = refl;
  target = (refl, refl);
  task = refl;
  revisions = (refl, refl);
  summary = refl;
  audience = summary_lem x.audience;
  detail = refl;
  success = refl;
  time = refl;
}

pub rows-IsLogged :
    (x : ReleaseSuccessAudit) (part_no : ℕ) (parts : List (Option Part))
    → IsLogged x part_no parts (audit_rows x part_no parts)
unfolding audit_rows IsLogged
rows-IsLogged x part_no [] = tt
rows-IsLogged x part_no (part ∷ parts) =
    (audit_row-IsRow x part_no part, rows-IsLogged x (part_no + 1) parts)

-- The rows that the code writes are those.
pub audit_rows-IsLogged :
    (x : ReleaseSuccessAudit) (audience : Option (Summary × List Part))
    → IsLogged x 1 (logged_parts audience) (audit_rows x 1 (details audience))
audit_rows-IsLogged x audience =
    subst (λ parts. IsLogged x 1 parts (audit_rows x 1 (details audience))) (parts_lem audience)
      (rows-IsLogged x 1 (details audience))

pub new_task-IsQueued :
    (task_id operation_id release_id : Text) (action : ReleaseAction) (revision now : ℕ)
    → IsQueued task_id operation_id release_id action revision now
        (new_task task_id operation_id release_id action revision now)
new_task-IsQueued task_id operation_id release_id action revision now = record {
  id = refl;
  status = refl;
  attempts = (refl, refl);
  due = refl;
  lease = (refl, refl, refl);
  ends = (refl, refl);
  times = (refl, refl);
  purpose = (refl, refl, refl);
  requested = refl;
}
