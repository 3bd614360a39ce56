-- ===== src/Jobs/Steps/Claims.antt =====
-- A claim keeps the invariant of executions: the task's former executions are stopped first.
use ota_api.Jobs.Policy.{can_claim_publish_task}
use ota_api.Jobs.Rows.{
  Database, Log, Task, has_id, is_log_running, is_running, update_where, find_where,
}
use ota_api.Jobs.Worker.{
  expire_log, expire_logs, lease_is_expired, Claim, claim_read, exhaust, lease, maximum_attempts,
  new_log, claim_task, claim_with, effective_revision,
}
use ota_api.Jobs.Steps.{Issued}
use ota_api.Jobs.Steps.Updates.{All-update_where, find_where-some}
use ota_api.Jobs.Steps.Exclusion.{Agrees, Calms, Exclusive, IsExclusive, Runs, Names}
use ota_api.Jobs.Steps.Settling.{other-Agrees, settled-IsExclusive, settled-other}
use ota_api.Jobs.Steps.Transactions.{Holds}
use ota_api.Prelude.{
  >>=-eq-ok, All, All-In, All-append, All-of_In, Bool-cases, In, List, Option, Text, [], arith,
  false, if◌then◌else◌, inl, inr, list_beq_iff, ltb, nat_eq, none, ok, option_text_eq, refl, some,
  subst, sym, text_eq, true, ℕ, ◌&&◌, ◌++◌, ◌+◌, ◌==◌, ◌∙◌, ◌∷◌, ◌≡◌, ◌≢◌,
}

expire_log-Calms : (now : ℕ) → Calms (expire_log now)
unfolding expire_log
expire_log-Calms now = record {
  same_log = λ l. refl;
  same_task = λ l. refl;
  not_started = λ l r. cc;
}

-- No execution of the task runs.
abbrev Idle : Text → List Log → Type 0
Idle task_id logs = All (λ (l : Log). Runs l → l.task_id ≢ task_id) logs

module _ (task_id : Text) (now : ℕ) (read : Task) (db : Database) (issued : List Issued)
    (listed : In read db.tasks) (same : read.task_id ≡ task_id)
    (claimable : can_claim_publish_task read.status read.next_run_at read.lease_until now ≡ true)
    (v : Holds db issued) (change : Task → Task)
    (same_id : (t : Task) → (change t).task_id ≡ t.task_id) where
  abbrev logs_before : List Log
  logs_before = if lease_is_expired read now then expire_logs task_id now db.logs else db.logs

  not_running : lease_is_expired read now ≡ false → is_running read.status ≡ false
  unfolding can_claim_publish_task
  not_running e = ground arith

  Idle-unless_expired : lease_is_expired read now ≡ false → Idle task_id db.logs
  Idle-unless_expired e = All-of_In _ db.logs λ l i. λ r p.
      let agrees = All-In (λ k. Runs k → Agrees db.tasks k) l db.logs v.agreed i r in
      let (run, _, _) =
        All-In
          (λ (t : Task).
            t.task_id ≡ l.task_id
            → (is_running t.status ≡ true)
              × (t.lease_token ≡ l.lease_token)
              × (t.lease_owner ≡ some l.worker_id))
          read db.tasks agrees listed (same ∙ sym p) in
      cc (run, not_running e)

  same_task : (t : Task) → has_id task_id t ≡ true → t.task_id ≡ task_id
  same_task t h = (list_beq_iff t.task_id task_id).0 h

  covered :
      (l : Log)
      → In l db.logs
      → Runs l
      → l.task_id ≡ task_id
      → (l.task_id == task_id && is_log_running l.status) ≡ true
  covered l i r p = ground (arith, list_beq_iff l.task_id task_id)

  -- Behind the expiry no execution of the task runs, and the invariant holds for its changed rows.
  stopped :
      IsExclusive (update_where (has_id task_id) change db.tasks) logs_before issued
      × Idle task_id logs_before
  unfolding expire_log
  stopped = elim (Bool-cases (lease_is_expired read now)) [
    | inl e ↦ rw e (
      settled-IsExclusive task_id (has_id task_id) change same_id same_task _ (expire_log now)
          (expire_log-Calms now) (λ l r. cc) db.tasks db.logs covered issued v,
      All-of_In _ (expire_logs task_id now db.logs) λ l i. λ r.
          (settled-other task_id (has_id task_id) change same_id same_task _ (expire_log now)
            (expire_log-Calms now) (λ l r. cc) db.tasks db.logs covered l i r).1,
    )
    | inr e ↦ rw e (
      record {
        agreed = All-of_In _ db.logs λ l i. λ r.
            other-Agrees task_id (has_id task_id) change same_id same_task db.tasks l
              (All-In (λ (k : Log). Runs k → k.task_id ≢ task_id) l db.logs (Idle-unless_expired e)
                i r)
              (All-In (λ k. Runs k → Agrees db.tasks k) l db.logs v.agreed i r);
        alone = v.alone;
        named = v.named;
      },
      Idle-unless_expired e,
    )
  ]

Exclusive-append :
    (logs : List Log) (l : Log) → Exclusive logs → Idle l.task_id logs → Exclusive (logs ++ l ∷ [])
Exclusive-append [] l x i = (tt, tt)
Exclusive-append (k ∷ ks) l x i = (All-append-one k ks l x.0 i.0, Exclusive-append ks l x.1 i.1)
  where
    All-append-one :
        (k : Log) (ks : List Log) (l : Log)
        → All (λ (z : Log). Runs k → Runs z → z.task_id ≢ k.task_id) ks
        → (Runs k → k.task_id ≢ l.task_id)
        → All (λ (z : Log). Runs k → Runs z → z.task_id ≢ k.task_id) (ks ++ l ∷ [])
    All-append-one k ks l h n = All-append _ ks (l ∷ []) h ((λ rk rl e. n rk (sym e)), tt)

-- Appending the new execution under the new lease keeps the invariant.
module _ (worker : Text) (request_id : Option Text) (now : ℕ) (log_id : Text) (revision : ℕ)
    (task_id : Text) (read : Task) (tasks : List Task) where
  abbrev started : Log
  started = new_log worker request_id now log_id revision task_id read

  started-Agrees : Agrees (update_where (has_id task_id) (lease worker read now) tasks) started
  unfolding lease new_log
  started-Agrees =
      All-update_where (has_id task_id) _ (λ _. Unit {0}) _ tasks (λ t _ h p. (refl, refl, refl))
        (λ t _ h p. absurd (cc ((list_beq_iff t.task_id task_id).1 p, h)))
        (All-of_In (λ _. Unit {0}) tasks (λ _ _. tt))

  started-IsExclusive :
      (logs : List Log) (issued : List Issued) (c : Claim)
      → c.log_id ≡ log_id
      → All (λ (l : Log). l.log_id ≢ log_id) logs
      → All (λ (i : Issued). i.claim.log_id ≢ log_id) issued
      → IsExclusive (update_where (has_id task_id) (lease worker read now) tasks) logs issued
      → Idle task_id logs
      → IsExclusive
          (update_where (has_id task_id) (lease worker read now) tasks)
          (logs ++ started ∷ [])
          (record { worker = worker; task_id = task_id; claim = c } ∷ issued)
  unfolding new_log
  started-IsExclusive logs issued c e fresh fresh_issued v idle = record {
    agreed = All-append _ logs (started ∷ []) v.agreed ((λ _. started-Agrees), tt);
    alone = Exclusive-append logs started v.alone idle;
    named = (
      All-append _ logs (started ∷ [])
          (All-of_In _ logs
            λ l i. λ p. absurd (All-In (λ (k : Log). k.log_id ≢ log_id) l logs fresh i (p ∙ e)))
          ((λ p. refl), tt),
      All-of_In _ issued λ i m.
          All-append _ logs (started ∷ []) (All-In (Names logs) i issued v.named m) (
            (λ p.
                absurd (
                  All-In (λ (k : Issued). k.claim.log_id ≢ log_id) i issued fresh_issued m
                    (sym p))),
            tt,
          ),
    );
  }

fresh_before :
    (task_id : Text) (now : ℕ) (read : Task) (db : Database) (log_id : Text)
    → All (λ (l : Log). l.log_id ≢ log_id) db.logs
    → All
        (λ (l : Log). l.log_id ≢ log_id)
        (if lease_is_expired read now then expire_logs task_id now db.logs else db.logs)
unfolding expire_log
fresh_before task_id now read db log_id h = elim (Bool-cases (lease_is_expired read now)) [
  | inl e ↦ rw e (All-update_where _ (expire_log now) _ _ db.logs (λ l f _. f) (λ l f _. f) h)
  | inr e ↦ rw e h
]

-- The claims after a transaction that may have issued one.
abbrev pub issue : Text → Text → Option Claim → List Issued → List Issued
issue worker task_id none issued = issued
issue worker task_id (some c) issued =
    record { worker = worker; task_id = task_id; claim = c } ∷ issued

-- Freshness of the drawn identifier is needed only where a claim is issued.
module _ (worker : Text) (request_id : Option Text) (now : ℕ) (log_id task_id : Text)
    (db : Database) (issued : List Issued) where
  abbrev FreshFor : Option Claim → Type 0
  FreshFor o =
      (c : Claim)
      → o ≡ some c
      → All (λ (l : Log). l.log_id ≢ log_id) db.logs
        × All (λ (i : Issued). i.claim.log_id ≢ log_id) issued

  claim_read-Holds :
      (revision : ℕ) (read : Task)
      → In read db.tasks
      → read.task_id ≡ task_id
      → FreshFor (claim_read worker request_id now log_id revision task_id db read).1
      → Holds db issued
      → let r = claim_read worker request_id now log_id revision task_id db read in
        Holds r.0 (issue worker task_id r.1 issued)
  unfolding claim_read
  claim_read-Holds revision read listed same fresh v =
      elim (Bool-cases (can_claim_publish_task read.status read.next_run_at read.lease_until now)) [
        | inl can ↦ elim (Bool-cases (ltb (maximum_attempts read) (read.attempt_count + 1))) [
          | inl over ↦
              rw (can, over)
                (stopped task_id now read db issued listed same can v (exhaust now) (λ t. refl)).0
          | inr under ↦
              let c : Claim = record {
                attempt_no = read.attempt_count + 1;
                lease_token = read.lease_token + 1;
                log_id = log_id;
                started_at = now;
                effective_revision = revision;
              } in
              let (f, g) = fresh c (rw (can, under) refl) in
              rw (can, under)
                (let (x, idle) =
                    stopped task_id now read db issued listed same can v (lease worker read now)
                      (λ t. refl) in
                  started-IsExclusive worker request_id now log_id revision task_id read db.tasks _
                    issued _ refl (fresh_before task_id now read db log_id f) g x idle)
        ]
        | inr cannot ↦ rw cannot v
      ]

  claim_with-Holds :
      (revision : ℕ) (o : Option Task)
      → find_where (has_id task_id) db.tasks ≡ o
      → FreshFor (claim_with worker request_id now log_id task_id db revision o).1
      → Holds db issued
      → let r = claim_with worker request_id now log_id task_id db revision o in
        Holds r.0 (issue worker task_id r.1 issued)
  unfolding claim_with
  claim_with-Holds revision none e fresh v = v
  claim_with-Holds revision (some read) e fresh v =
      let (i, h) = find_where-some (has_id task_id) db.tasks e in
      claim_read-Holds revision read i ((list_beq_iff read.task_id task_id).0 h) fresh v

  pub claim_task-Holds :
      (after : Database) (o : Option Claim)
      → claim_task worker request_id now log_id task_id db ≡ ok (after, o)
      → FreshFor o
      → Holds db issued
      → Holds after (issue worker task_id o issued)
  unfolding claim_task
  claim_task-Holds after o e fresh v =
      let (revision, _, e') = >>=-eq-ok (effective_revision db.catalog_revision) _ e in
      let q : claim_with worker request_id now log_id task_id db revision
            (find_where (has_id task_id) db.tasks)
          ≡ (after, o) =
        cc in
      subst (λ (r : Database × Option Claim). Holds r.0 (issue worker task_id r.1 issued)) q
        (claim_with-Holds revision _ refl
          (subst (λ (r : Database × Option Claim). FreshFor r.1) (sym q) fresh) v)
