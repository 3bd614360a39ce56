-- ===== src/Releases/Success.antt =====
-- src/audit/release-success-audit.ts and the failure's row of src/audit/application-write-audit.ts.
use ota_api.Audience.Changes.{Part, Summary}
use ota_api.Releases.{
  ReleaseAction, AuditRow, ChangeSummary, ReleaseDb, ReleaseOperationContext, TargetType,
}
use ota_api.Writes.{FailureCode, WriteError}
use ota_api.Prelude.{
  List, Option, Result, Text, [], map, nat_eq, none, ok, option_text_eq, some, text, text_eq, ℕ,
  ◌++◌, ◌+◌, ◌∷◌,
}

-- the input, `now` included: the callers are inside a transaction
pub record ReleaseSuccessAudit : Type 0 where
  pub context : ReleaseOperationContext
  pub operation_id : Text
  pub release_id : Text
  pub action : ReleaseAction
  pub target_type : TargetType
  pub task_id : Option Text
  pub revision_before : Option ℕ
  pub revision_after : Option ℕ
  pub change_summary : ChangeSummary
  pub audience : Option (Summary × List Part)
  pub now : ℕ

abbrev pub actor_type_of : ReleaseOperationContext → Text
actor_type_of context = elim context.actor_type [ none ↦ text "system" | some t ↦ t ]

abbrev pub audience_summary : Option (Summary × List Part) → Option Summary
audience_summary none = none
audience_summary (some (summary, parts)) = some summary

abbrev pub details : Option (Summary × List Part) → List (Option Part)
details none = none ∷ []
details (some (summary, parts)) = map some parts

unfoldable pub audit_row : ReleaseSuccessAudit → ℕ → Option Part → AuditRow
audit_row input part_no detail = record {
  operation_id = input.operation_id;
  part_no = part_no;
  context = input.context;
  actor_type = actor_type_of input.context;
  action = input.action;
  target_type = input.target_type;
  release_id = input.release_id;
  task_id = input.task_id;
  revision_before = input.revision_before;
  revision_after = input.revision_after;
  change_summary = input.change_summary;
  audience = audience_summary input.audience;
  change_detail = detail;
  error_code = none;
  created_at = input.now;
}

-- the loop over the parts
unfoldable pub audit_rows : ReleaseSuccessAudit → ℕ → List (Option Part) → List AuditRow
unfolding audit_row
audit_rows input part_no [] = []
audit_rows input part_no (detail ∷ rest) =
    audit_row input part_no detail ∷ audit_rows input (part_no + 1) rest

unfoldable pub insert_release_success_audit : ReleaseSuccessAudit → ReleaseDb → ReleaseDb
unfolding audit_rows
insert_release_success_audit input db = record db {
  audits = db.audits ++ audit_rows input 1 (details input.audience);
}

pub record ApplicationWriteAudit : Type 0 where
  pub operation_id : Text
  pub context : ReleaseOperationContext
  pub release_id : Text
  pub action : ReleaseAction
  pub target_type : TargetType
  pub change_summary : ChangeSummary

-- the row of a write that failed, in its own transaction
unfoldable pub insert_failure_audit :
    ApplicationWriteAudit → ℕ → FailureCode → ReleaseDb → Result WriteError (Unit {0} × ReleaseDb)
insert_failure_audit audit now code db = ok (
  tt,
  record db {
    audits =
        db.audits
        ++ record {
          operation_id = audit.operation_id;
          part_no = 1;
          context = audit.context;
          actor_type = actor_type_of audit.context;
          action = audit.action;
          target_type = audit.target_type;
          release_id = audit.release_id;
          task_id = none;
          revision_before = none;
          revision_after = none;
          change_summary = audit.change_summary;
          audience = none;
          change_detail = none;
          error_code = some code;
          created_at = now;
        }
          ∷ [];
  },
)
