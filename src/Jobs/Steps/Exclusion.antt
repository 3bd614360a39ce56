-- ===== src/Jobs/Steps/Exclusion.antt =====
-- The invariant of executions: a running execution agrees with the row of its task, no two run for
-- one task, and a claim names an execution of its own task.
use ota_api.Jobs.Rows.{Log, Task, is_log_running, is_running, update_where}
use ota_api.Jobs.Steps.{Issued}
use ota_api.Jobs.Steps.Updates.{All-update_where}
use ota_api.Prelude.{
  All, All-In, Bool, In, List, [], arith, if◌then◌else◌, inl, inr, nat_eq, option_text_eq, some,
  sym, text_eq, true, ◌∙◌, ◌∷◌, ◌≡◌, ◌≢◌,
}

abbrev pub Runs : Log → Type 0
Runs l = is_log_running l.status ≡ true

-- The rows of the task are running, under the lease of the execution.
abbrev pub Agrees : List Task → Log → Type 0
Agrees tasks l =
    All
      (λ (t : Task).
        t.task_id ≡ l.task_id
        → (is_running t.status ≡ true)
          × (t.lease_token ≡ l.lease_token)
          × (t.lease_owner ≡ some l.worker_id))
      tasks

abbrev pub Exclusive : List Log → Type 0
Exclusive [] = Unit
Exclusive (l ∷ ls) = All (λ (k : Log). Runs l → Runs k → k.task_id ≢ l.task_id) ls × Exclusive ls

abbrev pub Names : List Log → Issued → Type 0
Names logs i = All (λ (l : Log). l.log_id ≡ i.claim.log_id → l.task_id ≡ i.task_id) logs

pub record IsExclusive (tasks : List Task) (logs : List Log) (issued : List Issued) : Type 0 where
  pub agreed : All (λ l. Runs l → Agrees tasks l) logs
  pub alone : Exclusive logs
  pub named : All (Names logs) issued

-- Of the executions of one task, at most one runs.
pub running_unique :
    (logs : List Log) (k l : Log)
    → Exclusive logs
    → In k logs
    → In l logs
    → Runs k
    → Runs l
    → k.task_id ≡ l.task_id
    → k ≡ l
running_unique [] k l x i j rk rl e = elim i [ ]
running_unique (m ∷ ms) k l x (inl p) (inl q) rk rl e = p ∙ sym q
running_unique (m ∷ ms) k l x (inl p) (inr j) rk rl e = absurd (
    All-In (λ (z : Log). Runs m → Runs z → z.task_id ≢ m.task_id) l ms x.0 j (rw p at rk) rl
      (rw p at (sym e)))
running_unique (m ∷ ms) k l x (inr i) (inl q) rk rl e = absurd (
    All-In (λ (z : Log). Runs m → Runs z → z.task_id ≢ m.task_id) k ms x.0 i (rw q at rl) rk
      (rw q at e))
running_unique (m ∷ ms) k l x (inr i) (inr j) rk rl e = running_unique ms k l x.1 i j rk rl e

-- A change of an execution that starts nothing.
pub record Calms (change : Log → Log) : Type 0 where
  pub same_log : (l : Log) → (change l).log_id ≡ l.log_id
  pub same_task : (l : Log) → (change l).task_id ≡ l.task_id
  pub not_started : (l : Log) → Runs (change l) → Runs l

module _ (test : Log → Bool) (change : Log → Log) (calm : Calms change) where
  pub update-Exclusive :
      (logs : List Log) → Exclusive logs → Exclusive (update_where test change logs)
  unfolding update_where
  update-Exclusive [] x = tt
  update-Exclusive (l ∷ ls) x = (
    All-update_where test change (λ (k : Log). Runs l → Runs k → k.task_id ≢ l.task_id)
        (λ (k : Log).
          Runs (if test l then change l else l)
          → Runs k
          → k.task_id ≢ (if test l then change l else l).task_id)
        ls
        (λ k f _.
          ground
            (arith, calm.same_task k, calm.same_task l, calm.not_started k, calm.not_started l, f))
        (λ k f _. ground (arith, calm.same_task l, calm.not_started l, f)) x.0,
    update-Exclusive ls x.1,
  )

  update-Names :
      (logs : List Log) (i : Issued) → Names logs i → Names (update_where test change logs) i
  update-Names logs i h =
      All-update_where test change _ _ logs
        (λ l f _. λ e. calm.same_task l ∙ f (sym (calm.same_log l) ∙ e)) (λ l f _. f) h

  pub update-named :
      (logs : List Log) (issued : List Issued)
      → All (Names logs) issued
      → All (Names (update_where test change logs)) issued
  update-named logs [] h = tt
  update-named logs (i ∷ is) h = (update-Names logs i h.0, update-named logs is h.1)
