-- ===== src/Jobs/Policy.antt =====
-- src/jobs/publish/publish-task-policy.ts; times are milliseconds.
use ota_api.Prelude.{
  Bool, Option, false, if◌then◌else◌, leb, min, nat_eq, none, option_text_eq, some, text_eq, ℕ, ◌*◌,
  ◌+◌, ◌-◌, ◌^◌,
}

pub data PublishTaskStatus : Type 0 where
  pending running retry_wait succeeded failed : PublishTaskStatus

-- `Boolean(date && date.getTime() <= now.getTime())`
abbrev pub is_due : Option ℕ → ℕ → Bool
is_due none now = false
is_due (some date) now = leb date now

unfoldable pub can_claim_publish_task : PublishTaskStatus → Option ℕ → Option ℕ → ℕ → Bool
can_claim_publish_task pending next_run_at lease_until now = is_due next_run_at now
can_claim_publish_task retry_wait next_run_at lease_until now = is_due next_run_at now
can_claim_publish_task running next_run_at lease_until now = is_due lease_until now
can_claim_publish_task _ next_run_at lease_until now = false

pub record FailureTransition : Type 0 where
  pub status : PublishTaskStatus
  pub next_run_at : ℕ
  pub finished_at : Option ℕ

-- the truncated `attempt_no - 1` is `Math.max(attemptNo - 1, 0)`
unfoldable pub delay_ms : ℕ → ℕ
delay_ms attempt_no = min (5000 * 2 ^ (attempt_no - 1)) 300000

unfoldable pub publish_task_failure_transition : ℕ → ℕ → ℕ → FailureTransition
publish_task_failure_transition attempt_no maximum_attempts now =
    let exhausted = leb maximum_attempts attempt_no in
    record {
      status = if exhausted then failed else retry_wait;
      next_run_at = now + delay_ms attempt_no;
      finished_at = if exhausted then some now else none;
    }
