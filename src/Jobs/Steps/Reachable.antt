-- ===== src/Jobs/Steps/Reachable.antt =====
-- What holds after any interleaving of claims, renewals, completions, failures and publications.
use ota_api.Jobs.Rows.{Log, Task}
use ota_api.Jobs.Steps.{
  Reach, Step, System, claims, claims_nothing, finishes, here, next, pending_task, publishes,
  renews,
}
use ota_api.Jobs.Steps.Exclusion.{Agrees, Runs, running_unique}
use ota_api.Jobs.Steps.Transactions.{Holds, finish-Holds, renew-Holds}
use ota_api.Jobs.Steps.Claims.{claim_task-Holds}
use ota_api.Prelude.{
  All-In, All-append, All-of_In, In, List, Text, [], nat_eq, none, option_text_eq, some, sym,
  text_eq, ℕ, ◌++◌, ◌∷◌, ◌≡◌, ◌≢◌,
}

abbrev pub IsSafe : System → Type 0
IsSafe s = Holds s.db s.issued

published-Agrees :
    (task_id : Text) (now : ℕ) (tasks : List Task) (l : Log)
    → l.task_id ≢ task_id
    → Agrees tasks l
    → Agrees (tasks ++ pending_task task_id now ∷ []) l
published-Agrees task_id now tasks l n h =
    All-append _ tasks (pending_task task_id now ∷ []) h ((λ e. absurd (n (sym e))), tt)

Step-IsSafe : {s t : System} → Step s t → IsSafe s → IsSafe t
Step-IsSafe {s} (claims worker request_id now log_id task_id db c fresh e) v =
    claim_task-Holds worker request_id now log_id task_id s.db s.issued db (some c) e (λ _ _. fresh)
      v
Step-IsSafe {s} (claims_nothing worker request_id now log_id task_id db e) v =
    claim_task-Holds worker request_id now log_id task_id s.db s.issued db none e
      (λ c h. absurd (cc h)) v
Step-IsSafe {s} (renews i progress checked_at now db kept m e) v =
    renew-Holds i progress checked_at now s.db db kept s.issued e v
Step-IsSafe {s} (finishes i outcome checked_at now failed_at rechecked_at m) v =
    finish-Holds i outcome checked_at now failed_at rechecked_at s.db s.issued m v
Step-IsSafe {s} (publishes task_id now revision new_task new_logs) v = record {
  agreed = All-of_In _ s.db.logs λ l i. λ r.
      published-Agrees task_id now s.db.tasks l
        (All-In (λ (k : Log). k.task_id ≢ task_id) l s.db.logs new_logs i)
        (All-In (λ k. Runs k → Agrees s.db.tasks k) l s.db.logs v.agreed i r);
  alone = v.alone;
  named = v.named;
}

Reach-IsSafe : {s t : System} → IsSafe s → Reach s t → IsSafe t
Reach-IsSafe v here = v
Reach-IsSafe v (next r st) = Step-IsSafe st (Reach-IsSafe v r)

-- A database without tasks and executions.
abbrev pub initial : System
initial = record { db = record { catalog_revision = some 0; tasks = []; logs = [] }; issued = [] }

-- After any interleaving of workers that starts without tasks: two running executions of one task
-- are the same one, and every row of a running execution's task is itself running, under the
-- execution's token and worker.
pub Reach-exclusive :
    {s : System}
    → Reach initial s
    → (k l : Log) → In k s.db.logs
    → In l s.db.logs
    → Runs k
    → Runs l
    → (k.task_id ≡ l.task_id → k ≡ l) × Agrees s.db.tasks k
Reach-exclusive {s} r k l i j rk rl =
    let v = Reach-IsSafe (record { agreed = tt; alone = tt; named = tt }) r in
    (
      running_unique s.db.logs k l v.alone i j rk rl,
      All-In (λ m. Runs m → Agrees s.db.tasks m) k s.db.logs v.agreed i rk,
    )
