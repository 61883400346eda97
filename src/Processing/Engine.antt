-- ===== src/Processing/Engine.antt =====
-- The state of `ProcessingEngine` and its operations. A job is a pointer: the map of active jobs, the queue and
-- the goroutines hold its UUID, and `jobs` gives what stands there.
use hotel_reviews_microservi.Base.{
  ℕ, ◌+◌, ◌*◌, Bool, true, false, ◌&&◌, ◌||◌, not, Option, none, some, List, [], ◌∷◌, ◌++◌,
  if◌then◌else◌, ltb, ◌==◌, length, Time,
}
use hotel_reviews_microservi.Processing.Types.{
  Uuid, Bytes, bytes_eq, ProcessingStatus, status_pending, status_cancelled, ErrorMessage,
  no_message, ProcessingJob, ProcessingMetrics, is_live, is_final, is_failed,
}
use hotel_reviews_microservi.Processing.Url.{parse_s3_url}

-- A call of `SubmitJob`: the UUID that it makes, whether its context is done, which way its `select` goes where
-- the context is done and the queue has room as well, and what it submits.
pub record Submission : Type 0 where
  pub id : Uuid
  pub done : Bool
  pub sees_done : Bool
  pub provider_id : Uuid
  pub file_url : Bytes
  pub now : Time

-- `starting` are the workers that `Start` has still to put into the pool, and `locked` tells that it holds the
-- mutex of the jobs; `loops` are the workers whose loop runs. The dispatcher may hold a job for which it
-- waits for a worker. `running` are the runs of `processFile`, `sleeping` the jobs that wait to be queued
-- again, and `expiring` those that the goroutines of `updateJobStatus` will remove. `stopped` tells that the
-- engine's context is done. `entering` are the calls of `SubmitJob` that have found no job for their file and
-- have still to register theirs.
pub record ProcessingEngine : Type 0 where
  pub max_workers : ℕ
  pub max_concurrent_files : ℕ
  pub jobs : Uuid → ProcessingJob
  pub active_jobs : List Uuid
  pub file_queue : List Uuid
  pub worker_pool : List ℕ
  pub starting : List ℕ
  pub loops : List ℕ
  pub entering : List Submission
  pub held : Option Uuid
  pub running : List (ℕ × Uuid)
  pub sleeping : List Uuid
  pub expiring : List Uuid
  pub metrics : ProcessingMetrics
  pub locked : Bool
  pub started : Bool
  pub dispatching : Bool
  pub stopped : Bool

unfoldable pub new_processing_engine : ℕ → ℕ → (Uuid → ProcessingJob) → ProcessingEngine
new_processing_engine max_workers max_concurrent_files jobs = record {
  max_workers = max_workers;
  max_concurrent_files = max_concurrent_files;
  jobs = jobs;
  active_jobs = [];
  file_queue = [];
  worker_pool = [];
  starting = [];
  loops = [];
  entering = [];
  held = none;
  running = [];
  sleeping = [];
  expiring = [];
  metrics = record {
    total_jobs_processed = 0;
    total_records_processed = 0;
    total_errors = 0;
    active_workers = 0;
    queued_jobs = 0;
    last_processing_time = 0;
  };
  locked = false;
  started = false;
  dispatching = false;
  stopped = false;
}

abbrev pub queue_size : ProcessingEngine → ℕ
queue_size e = e.max_concurrent_files * 2

abbrev pub has_room : ProcessingEngine → Bool
has_room e = ltb (length e.file_queue) (queue_size e)

abbrev pub elem : ℕ → List ℕ → Bool
elem a [] = false
elem a (x ∷ xs) = x == a || elem a xs

-- The list without the first place where the element stands.
abbrev pub remove : ℕ → List ℕ → List ℕ
remove a [] = []
remove a (x ∷ xs) = if x == a then xs else x ∷ remove a xs

-- `delete` from the map of active jobs.
abbrev pub delete_all : ℕ → List ℕ → List ℕ
delete_all a [] = []
delete_all a (x ∷ xs) = let rest = delete_all a xs in if x == a then rest else x ∷ rest

abbrev pub set_job : Uuid → ProcessingJob → (Uuid → ProcessingJob) → Uuid → ProcessingJob
set_job id job jobs other = if id == other then job else jobs other

-- `updateJobStatus`. The counters, of type int64, are taken not to overflow.
unfoldable pub count_final :
    ProcessingStatus → Time → ProcessingJob → ProcessingMetrics → ProcessingMetrics
count_final status now job m = record m {
  total_jobs_processed = m.total_jobs_processed + 1;
  total_records_processed = m.total_records_processed + job.records_processed;
  total_errors = if is_failed status then m.total_errors + 1 else m.total_errors;
  last_processing_time = now;
}

unfoldable pub update_job_status :
    Uuid → ProcessingStatus → ErrorMessage → Time → ProcessingEngine → ProcessingEngine
unfolding count_final
update_job_status id status message now e =
    let job = e.jobs id in
    if is_final status
    then record e {
      jobs =
          set_job id (record job { status = status; error_message = message; end_time = now })
            e.jobs;
      metrics = count_final status now job e.metrics;
      expiring = id ∷ e.expiring;
    }
    else record e {
      jobs = set_job id (record job { status = status; error_message = message }) e.jobs;
    }

-- `removeJob`.
unfoldable pub remove_job : Uuid → ProcessingEngine → ProcessingEngine
remove_job id e = record e { active_jobs = delete_all id e.active_jobs }

-- The test of `checkIdempotency` on one job.
abbrev pub is_same_live : Uuid → Bytes → ProcessingJob → Bool
is_same_live provider url job =
    job.provider_id == provider && bytes_eq job.file_url url && is_live job.status

-- `checkIdempotency`.
unfoldable pub check_idempotency : Uuid → Bytes → (Uuid → ProcessingJob) → List Uuid → Option Uuid
check_idempotency provider url jobs [] = none
check_idempotency provider url jobs (id ∷ active) =
    if is_same_live provider url (jobs id)
    then some id
    else check_idempotency provider url jobs active

abbrev pub new_job : Uuid → Bytes → Time → ProcessingJob
new_job provider url now = record {
  provider_id = provider;
  file_url = url;
  status = status_pending;
  start_time = now;
  end_time = 0;
  records_total = 0;
  records_processed = 0;
  error_message = no_message;
  retry_count = 0;
  max_retries = 3;
  cancelled = false;
}

-- What `SubmitJob` returns.
pub data SubmitResult : Type 0 where
  submitted existing : Uuid → SubmitResult
  not_started invalid_file_url context_done queue_full : SubmitResult

-- The `select` sees the end of the context, of the cases that are ready.
unfoldable pub sees_context : Submission → ProcessingEngine → Bool
sees_context sub e = sub.done && (sub.sees_done || not (has_room e))

-- `SubmitJob` from the new job on.
unfoldable pub enter_job : Submission → ProcessingEngine → ProcessingEngine × SubmitResult
unfolding remove_job sees_context
enter_job sub e =
    let registered = record e {
      jobs = set_job sub.id (new_job sub.provider_id sub.file_url sub.now) e.jobs;
      active_jobs = sub.id ∷ delete_all sub.id e.active_jobs;
    } in
    if sees_context sub e
    then (remove_job sub.id registered, context_done)
    else if has_room e
    then (record registered { file_queue = e.file_queue ++ sub.id ∷ [] }, submitted sub.id)
    else (remove_job sub.id registered, queue_full)

abbrev has_value {ℓ} : {A : Type ℓ} → Option A → Bool
has_value none = false
has_value (some a) = true

-- `SubmitJob` up to its check; `none` where it goes on.
unfoldable pub check_submission : Submission → ProcessingEngine → Option SubmitResult
unfolding check_idempotency
check_submission sub e =
    if not e.started
    then some not_started
    else if not (has_value (parse_s3_url sub.file_url))
    then some invalid_file_url
    else elim (check_idempotency sub.provider_id sub.file_url e.jobs e.active_jobs) [
      | none ↦ none
      | some id ↦ some (existing id)
    ]

-- The whole of `SubmitJob`, where no other step comes between its check and its registration.
unfoldable pub submit_job : Submission → ProcessingEngine → ProcessingEngine × SubmitResult
unfolding enter_job check_submission
submit_job sub e = elim (check_submission sub e) [
  | none ↦ enter_job sub e
  | some result ↦ (e, result)
]

-- `GetJobStatus`.
unfoldable pub get_job_status : Uuid → ProcessingEngine → Option ProcessingJob
get_job_status id e = if elem id e.active_jobs then some (e.jobs id) else none

-- `CancelJob`; the second result tells whether there is such a job.
unfoldable pub cancel_job : Uuid → Time → ProcessingEngine → ProcessingEngine × Bool
cancel_job id now e =
    if elem id e.active_jobs
    then (
      record e {
        jobs =
            set_job id
              (record (e.jobs id) { cancelled = true; status = status_cancelled; end_time = now })
              e.jobs;
      },
      true,
    )
    else (e, false)
