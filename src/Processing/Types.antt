-- ===== src/Processing/Types.antt =====
-- The jobs of the engine and its metrics. A UUID is the number of its 128 bits; a URL is the list of its bytes.
-- The int64 counters are natural numbers, which the model does not bound.
use Prim.Native.String.{String}
use hotel_reviews_microservi.Base.{ℕ, Bool, true, false, List, [], ◌∷◌, ◌&&◌, ◌==◌, Time}

abbrev pub Uuid : Type 0
Uuid = ℕ

abbrev pub Bytes : Type 0
Bytes = List ℕ

abbrev pub bytes_eq : Bytes → Bytes → Bool
bytes_eq [] [] = true
bytes_eq [] (y ∷ ys) = false
bytes_eq (x ∷ xs) [] = false
bytes_eq (x ∷ xs) (y ∷ ys) = x == y && bytes_eq xs ys

pub data ProcessingStatus : Type 0 where
  status_pending status_running status_completed : ProcessingStatus
  status_failed status_cancelled status_retrying : ProcessingStatus

-- Why `processFile` fails, with the error of the call that did.
pub data FileError : Type 0 where
  invalid_url : FileError
  existence_unknown download_failed redownload_failed process_failed : String → FileError
  no_such_file : FileError

-- The texts of `ErrorMessage`.
pub data ErrorMessage : Type 0 where
  no_message system_shutdown requeue_failed : ErrorMessage
  retry : ℕ → ℕ → FileError → ErrorMessage
  failed_with : FileError → ErrorMessage

-- `cancelled` tells that the job's context is; `end_time` is that of Go's zero time until it is set.
pub record ProcessingJob : Type 0 where
  pub provider_id : Uuid
  pub file_url : Bytes
  pub status : ProcessingStatus
  pub start_time : Time
  pub end_time : Time
  pub records_total : ℕ
  pub records_processed : ℕ
  pub error_message : ErrorMessage
  pub retry_count : ℕ
  pub max_retries : ℕ
  pub cancelled : Bool

pub record ProcessingMetrics : Type 0 where
  pub total_jobs_processed : ℕ
  pub total_records_processed : ℕ
  pub total_errors : ℕ
  pub active_workers : ℕ
  pub queued_jobs : ℕ
  pub last_processing_time : Time

-- The statuses for which a job counts as there.
abbrev pub is_live : ProcessingStatus → Bool
is_live status_pending = true
is_live status_running = true
is_live status_retrying = true
is_live _ = false

-- `status == StatusCompleted || status == StatusFailed || status == StatusCancelled`.
abbrev pub is_final : ProcessingStatus → Bool
is_final status_completed = true
is_final status_failed = true
is_final status_cancelled = true
is_final _ = false

abbrev pub is_failed : ProcessingStatus → Bool
is_failed status_failed = true
is_failed _ = false
