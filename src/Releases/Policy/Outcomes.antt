-- ===== src/Releases/Policy/Outcomes.antt =====
-- A change of a policy with the transactions around it, however the calls of the driver end.
use ota_api.Releases.Policy.Mutations.{enabling, replacement, scope_change}
use ota_api.Releases.{no_summary, AuditRow, ReleaseDb, ChangeSummary, TargetType}
use ota_api.Releases.Policy.{Call, failure_audit, mutate_policy, policy_write}
use ota_api.Releases.Policy.Effects.{
  PolicyChange, mutation_of, change_scope, replace_users, send_again, set_enabled,
}
use ota_api.Releases.Policy.Applied.{IsApplied, action_of, change-IsApplied, mutation-action}
use ota_api.Releases.Policy.Audited.{IsAudited, policy_write-IsAudited}
use ota_api.Releases.Success.{insert_failure_audit}
use ota_api.Writes.{Driver, WriteError, failure_code, reaches_write}
use ota_api.Writes.Durability.{
  with_audited_application_write-cases, with_audited_application_write-ok,
}
use ota_api.Prelude.{
  Bool, Text, [], ap, err, false, inl, inr, length, nat_eq, none, ok, ok_value, option_text_eq,
  refl, some, sym, text_eq, true, ℕ, ◌++◌, ◌∷◌, ◌≡◌, ◌⊎◌,
}

-- What a request asks for, before its users are normalised.
pub asked_summary : PolicyChange → ChangeSummary
asked_summary (replace_users user_ids expected) = record no_summary {
  user_count = some (length user_ids);
}
asked_summary (change_scope scope expected) = record no_summary { release_scope = some scope }
asked_summary (set_enabled enabled) = record no_summary { enabled = some enabled }
asked_summary send_again = record no_summary { redispatch = some true }

mutation-summary :
    (date : ℕ → Text) (app_name release_id : Text) (now : ℕ) (change : PolicyChange)
    → (mutation_of date app_name release_id now change).change_summary ≡ asked_summary change
unfolding mutation_of replacement scope_change enabling asked_summary
mutation-summary date app_name release_id now (replace_users user_ids expected) = refl
mutation-summary date app_name release_id now (change_scope scope expected) = refl
mutation-summary date app_name release_id now (set_enabled enabled) = refl
mutation-summary date app_name release_id now send_again = refl

-- one more audit row, of a failure, and nothing else
pub record IsFailed (release_id : Text) (call : Call) (change : PolicyChange) (ran : Bool)
    (e : WriteError) (db after : ReleaseDb) : Type 0 where
  pub audit : AuditRow
  pub added : after ≡ record db { audits = db.audits ++ audit ∷ [] }
  pub code : audit.error_code ≡ some (failure_code e)
  pub about : (audit.release_id ≡ release_id) × (audit.operation_id ≡ call.operation_id)
  pub action : (audit.action ≡ action_of change) × (audit.target_type ≡ TargetType.release)
  pub bare :
      (audit.part_no ≡ 1)
      × (audit.change_detail ≡ none)
      × (audit.task_id ≡ none)
      × (audit.revision_before ≡ none)
      × (audit.revision_after ≡ none)
  pub summary : ran ≡ false → audit.change_summary ≡ asked_summary change

-- However the calls of the driver end, a change of a release's policy that returns a revision is applied
-- as a whole at that revision, and one that fails leaves the tables as they were,
-- or applied as a whole, with its row, its users, its task and its audit, or with only the audit row of
-- its failure, which has the code of the error that is thrown, no part, no task and no revision, and the
-- summary of the request where the write did not run.
pub mutate_policy-cases :
    (date : ℕ → Text) (first second : Driver) (table_prefix app_name release_id : Text)
    (call : Call) (change : PolicyChange) (db : ReleaseDb)
    → let mutation = mutation_of date app_name release_id call.now change in
      let (after, result) =
        mutate_policy first second table_prefix app_name release_id call mutation db in
      ((revision : ℕ)
        → result ≡ ok revision
        → IsApplied app_name release_id call change db revision after
          × IsAudited date app_name release_id call change db after)
      × ((after ≡ db)
          ⊎ (((revision : ℕ) × IsApplied app_name release_id call change db revision after
                × IsAudited date app_name release_id call change db after)
              ⊎ ((e : WriteError) × (result ≡ err e)
                  × IsFailed release_id call change (reaches_write first table_prefix) e db after)))
unfolding mutate_policy insert_failure_audit failure_audit
mutate_policy-cases date first second table_prefix app_name release_id call change db =
    let mutation = mutation_of date app_name release_id call.now change in
    (
      λ revision h.
          let written =
            with_audited_application_write-ok (policy_write app_name release_id call mutation) db
              second table_prefix
              (insert_failure_audit
                (failure_audit app_name release_id call mutation (reaches_write first table_prefix)
                  db)
                call.now)
              first revision h in
          (
            change-IsApplied date app_name release_id call change db _ revision written,
            policy_write-IsAudited date app_name release_id call change db _ revision written,
          ),
      elim (with_audited_application_write-cases (policy_write app_name release_id call mutation) db
          second table_prefix
          (insert_failure_audit
            (failure_audit app_name release_id call mutation (reaches_write first table_prefix) db)
            call.now)
          first) [
            | inl same ↦ inl same
            | inr (inl (revision, written)) ↦ inr (
                inl (
                  revision,
                  change-IsApplied date app_name release_id call change db _ revision written,
                  policy_write-IsAudited date app_name release_id call change db _ revision written,
                ))
            | inr (inr (e, thrown, added)) ↦ inr (
                inr (
                  e,
                  thrown,
                  record {
                    audit = _;
                    added =
                        ap (λ (r : Unit {0} × ReleaseDb). r.1)
                          (sym (ok_value {E = WriteError} _ _ refl _ added));
                    code = refl;
                    about = (refl, refl);
                    action = (mutation-action date app_name release_id call.now change, refl);
                    bare = (refl, refl, refl, refl, refl);
                    summary =
                        λ idle. rw idle (mutation-summary date app_name release_id call.now change);
                  },
                ))
          ],
    )
