-- ===== src/Jobs/Due.antt =====
-- When a task is due, independently of the code that asks for it.
use ota_api.Jobs.Policy.{PublishTaskStatus, can_claim_publish_task, is_due}
use ota_api.Jobs.Rows.{Task, is_running}
use ota_api.Jobs.Execution.{is_recoverable, is_waiting}
use ota_api.Prelude.{
  Option, arith, nat_eq, none, option_text_eq, refl, some, text_eq, true, ℕ, ◌&&◌, ◌||◌, ◌≡◌, ◌≤◌,
}

-- A time that is there and has come.
abbrev pub HasCome : Option ℕ → ℕ → Type 0
HasCome date now = (d : ℕ) × (date ≡ some d) × (d ≤ now)

-- What a claim waits for: a waiting task for its next run, a running one for the end of its lease.
pub IsDue : PublishTaskStatus → Task → ℕ → Type 0
IsDue PublishTaskStatus.pending t now = HasCome t.next_run_at now
IsDue PublishTaskStatus.retry_wait t now = HasCome t.next_run_at now
IsDue PublishTaskStatus.running t now = HasCome t.lease_until now
IsDue PublishTaskStatus.succeeded t now = ⊥
IsDue PublishTaskStatus.failed t now = ⊥

HasCome-is_due : (date : Option ℕ) (now : ℕ) → is_due date now ≡ true → HasCome date now
HasCome-is_due none now h = absurd (cc h)
HasCome-is_due (some d) now h = (d, refl, ground (arith, h))

pub IsDue-can_claim :
    (s : PublishTaskStatus) (t : Task) (now : ℕ)
    → can_claim_publish_task s t.next_run_at t.lease_until now ≡ true
    → IsDue s t now
unfolding can_claim_publish_task IsDue
IsDue-can_claim PublishTaskStatus.pending t now h = HasCome-is_due t.next_run_at now h
IsDue-can_claim PublishTaskStatus.retry_wait t now h = HasCome-is_due t.next_run_at now h
IsDue-can_claim PublishTaskStatus.running t now h = HasCome-is_due t.lease_until now h
IsDue-can_claim PublishTaskStatus.succeeded t now h = absurd (cc h)
IsDue-can_claim PublishTaskStatus.failed t now h = absurd (cc h)

is_due-HasCome : (date : Option ℕ) (now : ℕ) → HasCome date now → is_due date now ≡ true
is_due-HasCome none now (d, e, h) = absurd (cc e)
is_due-HasCome (some k) now (d, e, h) = ground (arith, e, h)

pub can_claim-IsDue :
    (s : PublishTaskStatus) (t : Task) (now : ℕ)
    → IsDue s t now
    → can_claim_publish_task s t.next_run_at t.lease_until now ≡ true
unfolding can_claim_publish_task IsDue
can_claim-IsDue PublishTaskStatus.pending t now h = is_due-HasCome t.next_run_at now h
can_claim-IsDue PublishTaskStatus.retry_wait t now h = is_due-HasCome t.next_run_at now h
can_claim-IsDue PublishTaskStatus.running t now h = is_due-HasCome t.lease_until now h
can_claim-IsDue PublishTaskStatus.succeeded t now h = elim h [ ]
can_claim-IsDue PublishTaskStatus.failed t now h = elim h [ ]

-- The poll's condition is the policy's.
pub is_recoverable-can_claim :
    (now : ℕ) (t : Task)
    → is_recoverable now t ≡ can_claim_publish_task t.status t.next_run_at t.lease_until now
unfolding is_recoverable can_claim_publish_task
is_recoverable-can_claim now t = of_status t.status t.next_run_at t.lease_until
  where
    of_status :
        (s : PublishTaskStatus) (next until : Option ℕ)
        → ((is_waiting s && is_due next now) || (is_running s && is_due until now))
          ≡ can_claim_publish_task s next until now
    of_status PublishTaskStatus.pending next until = ground arith
    of_status PublishTaskStatus.retry_wait next until = ground arith
    of_status PublishTaskStatus.running next until = refl
    of_status PublishTaskStatus.succeeded next until = refl
    of_status PublishTaskStatus.failed next until = refl
