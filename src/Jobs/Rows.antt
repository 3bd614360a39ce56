-- ===== src/Jobs/Rows.antt =====
-- The tables of publish tasks and of their executions, and the statements that the worker runs on
-- them. A nullable column is an `Option`; a date is its time in milliseconds.
use ota_api.Jobs.Policy.{PublishTaskStatus}
use ota_api.Realtime.Dispatch.{DispatchMetrics}
use ota_api.Prelude.{
  Bool, List, Option, Text, [], false, if◌then◌else◌, ltb, nat_eq, none, option_text_eq, some,
  text_eq, true, ℕ, ◌&&◌, ◌==◌, ◌∷◌,
}

pub data ErrorCode : Type 0 where
  lease_expired catalog_revision_changed lease_lost emit_failed dispatch_failed : ErrorCode

pub record Task : Type 0 where
  pub task_id : Text
  pub status : PublishTaskStatus
  pub attempt_count : ℕ
  pub max_attempts : ℕ
  pub next_run_at : Option ℕ
  pub lease_owner : Option Text
  pub lease_token : ℕ
  pub lease_until : Option ℕ
  pub last_error_code : Option ErrorCode
  pub created_at : ℕ
  pub updated_at : ℕ
  pub finished_at : Option ℕ

pub data LogStatus : Type 0 where
  running succeeded failed lease_expired : LogStatus

pub record Log : Type 0 where
  pub log_id : Text
  pub task_id : Text
  pub attempt_no : ℕ
  pub worker_id : Text
  pub lease_token : ℕ
  pub status : LogStatus
  pub effective_revision : ℕ
  pub started_at : ℕ
  pub finished_at : Option ℕ
  pub duration_ms : Option ℕ
  pub error_code : Option ErrorCode
  pub progress : Option DispatchMetrics
  pub last_checkpoint_at : Option ℕ
  pub metrics_complete : Bool
  pub request_id : Option Text

-- The rows that one application's worker reads and writes; its catalog revision is absent where the
-- application has no row.
pub record Database : Type 0 where
  pub catalog_revision : Option ℕ
  pub tasks : List Task
  pub logs : List Log

module _ {A : Type 0} where
  -- `UPDATE … SET change WHERE test`
  unfoldable pub update_where : (A → Bool) → (A → A) → List A → List A
  update_where test change [] = []
  update_where test change (x ∷ xs) = (if test x then change x else x) ∷ update_where test change xs

  -- `getRawOne`: the first row that fits
  unfoldable pub find_where : (A → Bool) → List A → Option A
  find_where test [] = none
  find_where test (x ∷ xs) = if test x then some x else find_where test xs

abbrev pub is_running : PublishTaskStatus → Bool
is_running PublishTaskStatus.running = true
is_running _ = false

abbrev pub is_log_running : LogStatus → Bool
is_log_running LogStatus.running = true
is_log_running _ = false

abbrev pub has_id : Text → Task → Bool
has_id task_id t = t.task_id == task_id

-- `lease_until > :now`, false on NULL
abbrev pub is_after : Option ℕ → ℕ → Bool
is_after none now = false
is_after (some date) now = ltb now date

-- `task_id = … AND status = 'running' AND lease_token = … AND lease_owner = …`
unfoldable pub holds_lease : Text → Text → ℕ → Task → Bool
holds_lease worker task_id lease_token t =
    has_id task_id t
    && (is_running t.status && (t.lease_token == lease_token && t.lease_owner == some worker))

-- `log_id = … AND status = 'running' AND lease_token = … AND worker_id = …`
unfoldable pub is_own_log : Text → Text → ℕ → Log → Bool
is_own_log worker log_id lease_token l =
    l.log_id == log_id
    && (is_log_running l.status && (l.lease_token == lease_token && l.worker_id == worker))
