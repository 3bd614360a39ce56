-- ===== src/Jobs/Steps/Settling.antt =====
-- How the writes of a transaction keep the invariant: a lease that is extended, and the executions
-- of one task that are stopped while its row changes.
use ota_api.Jobs.Rows.{Log, Task, is_own_log, update_where}
use ota_api.Jobs.Execution.{checkpoint, extend_lease}
use ota_api.Realtime.Dispatch.{DispatchMetrics}
use ota_api.Jobs.Steps.{Issued}
use ota_api.Jobs.Steps.Updates.{All-update_where, In-update_where}
use ota_api.Jobs.Steps.Exclusion.{
  Agrees, Calms, Exclusive, IsExclusive, Names, Runs, running_unique, update-Exclusive,
  update-named,
}
use ota_api.Prelude.{
  All, All-In, All-of_In, Bool, Bool-cases, In, List, Text, any, any-eq-true_from, arith,
  if◌then◌else◌, inl, inr, list_beq_iff, nat_eq, option_text_eq, refl, subst, sym, text_eq, true, ℕ,
  ◌∙◌, ◌≡◌, ◌≢◌,
}

checkpoint-Calms : (progress : DispatchMetrics) (now : ℕ) → Calms (checkpoint progress now)
unfolding checkpoint
checkpoint-Calms progress now = record {
  same_log = λ l. refl;
  same_task = λ l. refl;
  not_started = λ l r. r;
}

extend_lease-Agrees :
    (test : Task → Bool) (now : ℕ) (tasks : List Task) (l : Log)
    → Agrees tasks l
    → Agrees (update_where test (extend_lease now) tasks) l
unfolding extend_lease
extend_lease-Agrees test now tasks l h =
    All-update_where test _ _ _ tasks (λ t f _. f) (λ t f _. f) h

-- A renewal keeps the invariant, whatever rows it selects.
pub renewed-IsExclusive :
    (task_test : Task → Bool) (log_test : Log → Bool) (progress : DispatchMetrics) (now : ℕ)
    (tasks : List Task) (logs : List Log) (issued : List Issued)
    → IsExclusive tasks logs issued
    → IsExclusive
        (update_where task_test (extend_lease now) tasks)
        (update_where log_test (checkpoint progress now) logs)
        issued
unfolding checkpoint
renewed-IsExclusive task_test log_test progress now tasks logs issued v = record {
  agreed =
      All-update_where log_test _ _ _ logs
        (λ l f _. λ r. extend_lease-Agrees task_test now tasks l (f r))
        (λ l f _. λ r. extend_lease-Agrees task_test now tasks l (f r)) v.agreed;
  alone = update-Exclusive log_test _ (checkpoint-Calms progress now) logs v.alone;
  named = update-named log_test _ (checkpoint-Calms progress now) logs issued v.named;
}

-- A change of rows of one task.
module _ (task_id : Text) (task_test : Task → Bool) (task_change : Task → Task)
    (same_id : (t : Task) → (task_change t).task_id ≡ t.task_id)
    (only : (t : Task) → task_test t ≡ true → t.task_id ≡ task_id) where
  pub other-Agrees :
      (tasks : List Task) (l : Log)
      → l.task_id ≢ task_id
      → Agrees tasks l
      → Agrees (update_where task_test task_change tasks) l
  other-Agrees tasks l n h =
      All-update_where task_test task_change _ _ tasks
        (λ t f e. λ p. absurd (n (sym p ∙ same_id t ∙ only t e))) (λ t f _. f) h

  module _ (log_test : Log → Bool) (log_change : Log → Log) (calm : Calms log_change)
      (stops : (l : Log) → ¬ Runs (log_change l)) (tasks : List Task) (logs : List Log)
      (covers : (l : Log) → In l logs → Runs l → l.task_id ≡ task_id → log_test l ≡ true) where
    -- Every execution that still runs was running, and is one of another task.
    pub settled-other :
        (l : Log)
        → In l (update_where log_test log_change logs)
        → Runs l
        → In l logs × (l.task_id ≢ task_id)
    settled-other l i r =
        let (k, j, e) = In-update_where log_test log_change l logs i in
        elim (Bool-cases (log_test k)) [
          | inl t ↦ absurd (stops k (rw (e, t) at r))
          | inr f ↦
              let g : (if log_test k then log_change k else k) ≡ k = rw f refl in
              let q : l ≡ k = e ∙ g in
              (
                subst (λ (z : Log). In z logs) (sym q) j,
                λ p. cc (covers k j (rw q at r) (rw q at p), f),
              )
        ]

    pub settled-agreed :
        All (λ l. Runs l → Agrees tasks l) logs
        → All
            (λ l. Runs l → Agrees (update_where task_test task_change tasks) l)
            (update_where log_test log_change logs)
    settled-agreed h = All-of_In _ (update_where log_test log_change logs) λ l i. λ r.
        let (j, n) = settled-other l i r in
        other-Agrees tasks l n (All-In (λ k. Runs k → Agrees tasks k) l logs h j r)

    pub settled-IsExclusive :
        (issued : List Issued)
        → IsExclusive tasks logs issued
        → IsExclusive
            (update_where task_test task_change tasks)
            (update_where log_test log_change logs)
            issued
    settled-IsExclusive issued v = record {
      agreed = settled-agreed v.agreed;
      alone = update-Exclusive log_test log_change calm logs v.alone;
      named = update-named log_test log_change calm logs issued v.named;
    }

own_log_parts :
    (i : Issued) (l : Log)
    → is_own_log i.worker i.claim.log_id i.claim.lease_token l ≡ true
    → (l.log_id ≡ i.claim.log_id) × Runs l
unfolding is_own_log
own_log_parts i l h = ground (arith, list_beq_iff l.log_id i.claim.log_id)

-- The execution of a claim that still runs is the only one of its task.
pub own_log-covers :
    (i : Issued) (logs : List Log) (issued : List Issued)
    → Exclusive logs
    → All (Names logs) issued
    → In i issued
    → any (is_own_log i.worker i.claim.log_id i.claim.lease_token) logs ≡ true
    → (l : Log) → In l logs
    → Runs l
    → l.task_id ≡ i.task_id
    → is_own_log i.worker i.claim.log_id i.claim.lease_token l ≡ true
own_log-covers i logs issued x named m some_own l j r e =
    let (own, jo, h) = any-eq-true_from _ logs some_own in
    let (id, run) = own_log_parts i own h in
    let same = All-In _ own logs (All-In (Names logs) i issued named m) jo id in
    rw (running_unique logs l own x j jo r run (e ∙ sym same)) h
