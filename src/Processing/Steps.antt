-- ===== src/Processing/Steps.antt =====
-- What the goroutines of the engine do, in the steps between which others may run, and schedules of these
-- steps. A step that cannot be taken leaves the engine as it is.
pub mod Invariant
pub mod Attempts
pub mod Live
pub mod Blocked
use hotel_reviews_microservi.Base.{
  ℕ, zero, suc, ◌+◌, ◌-◌, Bool, true, false, ◌&&◌, ◌||◌, not, Option, none, some, List, [], ◌∷◌,
  ◌++◌, if◌then◌else◌, ltb, leb, ◌==◌, length, Time,
}
use hotel_reviews_microservi.Processing.Types.{
  Uuid, status_running, status_completed, status_failed, status_cancelled, status_retrying,
  FileError, no_message, system_shutdown, requeue_failed, retry, failed_with, ProcessingJob,
}
use hotel_reviews_microservi.Processing.File.{Services, finished, panicked, process_file}
use hotel_reviews_microservi.Processing.Engine.{
  ProcessingEngine, queue_size, has_room, elem, remove, set_job, update_job_status, remove_job,
  Submission, SubmitResult, check_submission, enter_job, submit_job, cancel_job,
}

-- `0, …, n - 1`.
abbrev pub upto : ℕ → List ℕ
upto zero = []
upto (suc n) = upto n ++ n ∷ []

-- `Start`: it takes the mutex, unless the engine is started.
unfoldable pub start : ProcessingEngine → ProcessingEngine
start e =
    if e.locked || e.started then e else record e { locked = true; starting = upto e.max_workers }

abbrev pub pool_has_room : ProcessingEngine → Bool
pool_has_room e = ltb (length e.worker_pool) e.max_workers

-- A round of `startWorkerPool`.
abbrev pub put_next : List ℕ → ProcessingEngine → ProcessingEngine
put_next [] e = e
put_next (w ∷ rest) e =
    if pool_has_room e
    then record e { worker_pool = e.worker_pool ++ w ∷ []; loops = w ∷ e.loops; starting = rest }
    else e

unfoldable pub put_worker : ProcessingEngine → ProcessingEngine
put_worker e = put_next e.starting e

-- The end of `Start`, once every worker is in the pool.
abbrev pub end_start : List ℕ → ProcessingEngine → ProcessingEngine
end_start [] e = record e { locked = false; started = true; dispatching = true }
end_start (w ∷ rest) e = e

unfoldable pub start_dispatcher : ProcessingEngine → ProcessingEngine
start_dispatcher e = if e.locked then end_start e.starting e else e

-- A round of `workerLoop`: the worker is offered again, busy or not.
unfoldable pub offer_worker : ℕ → ProcessingEngine → ProcessingEngine
offer_worker w e =
    if elem w e.loops && not e.stopped && pool_has_room e
    then record e { worker_pool = e.worker_pool ++ w ∷ [] }
    else e

-- `Stop`: the contexts of the active jobs and of the engine are cancelled.
unfoldable pub stop : ProcessingEngine → ProcessingEngine
stop e = if e.locked || not e.started then e else record e {
  jobs = λ id. if elem id e.active_jobs then record (e.jobs id) { cancelled = true } else e.jobs id;
  started = false;
  stopped = true;
}

-- `jobDispatcher` receives a job.
abbrev pub take_queued : Option Uuid → List Uuid → ProcessingEngine → ProcessingEngine
take_queued none (id ∷ rest) e =
    if e.dispatching then record e { held = some id; file_queue = rest } else e
take_queued _ _ e = e

unfoldable pub receive_job : ProcessingEngine → ProcessingEngine
receive_job e = take_queued e.held e.file_queue e

-- `dispatchJob` hands the job to a worker, and `processJobWithWorker` begins.
abbrev pub give_to : Option Uuid → List ℕ → ProcessingEngine → ProcessingEngine
give_to (some id) (w ∷ rest) e =
    if e.dispatching
    then update_job_status id status_running no_message 0
        (record e { held = none; worker_pool = rest; running = (w, id) ∷ e.running })
    else e
give_to _ _ e = e

unfoldable pub dispatch_job : ProcessingEngine → ProcessingEngine
dispatch_job e = give_to e.held e.worker_pool e

-- `dispatchJob` sees the end of the engine's context.
abbrev pub abandon : Option Uuid → Time → ProcessingEngine → ProcessingEngine
abandon none now e = e
abandon (some id) now e =
    if e.stopped
    then update_job_status id status_cancelled system_shutdown now (record e { held = none })
    else e

unfoldable pub abandon_job : Time → ProcessingEngine → ProcessingEngine
abandon_job now e = abandon e.held now e

-- `jobDispatcher` ends.
abbrev pub leave : Option Uuid → ProcessingEngine → ProcessingEngine
leave none e = if e.stopped then record e { dispatching = false } else e
leave (some id) e = e

unfoldable pub end_dispatcher : ProcessingEngine → ProcessingEngine
end_dispatcher e = leave e.held e

abbrev pub runs_job : Uuid → List (ℕ × Uuid) → Bool
runs_job id [] = false
runs_job id (r ∷ running) = r.1 == id || runs_job id running

abbrev pub remove_run : Uuid → List (ℕ × Uuid) → List (ℕ × Uuid)
remove_run id [] = []
remove_run id (r ∷ running) = if r.1 == id then running else r ∷ remove_run id running

-- The retry of a job, which sleeps before it is queued again.
unfoldable pub retry_job : Uuid → FileError → Time → ProcessingEngine → ProcessingEngine
retry_job id failure now e =
    let job = e.jobs id in
    update_job_status id status_retrying (retry (job.retry_count + 1) job.max_retries failure) now
      (record e {
        jobs = set_job id (record job { retry_count = job.retry_count + 1 }) e.jobs;
        sleeping = id ∷ e.sleeping;
      })

-- `processJobWithWorker` from the result of `processFile` to the end, or to its sleep.
unfoldable pub conclude : Uuid → Option FileError → Time → ProcessingEngine → ProcessingEngine
unfolding retry_job
conclude id none now e = update_job_status id status_completed no_message now e
conclude id (some failure) now e =
    if ltb (e.jobs id).retry_count (e.jobs id).max_retries
    then retry_job id failure now e
    else update_job_status id status_failed (failed_with failure) now e

-- A run of `processFile` has ended; `total` is the job's `RecordsTotal` then.
unfoldable pub finish_job : Uuid → ℕ → Option FileError → Time → ProcessingEngine → ProcessingEngine
finish_job id total result now e =
    if runs_job id e.running
    then conclude id result now (record e {
      running = remove_run id e.running;
      jobs = set_job id (record (e.jobs id) { records_total = total }) e.jobs;
    })
    else e

-- The same with the run itself; `none` is a panic, which ends the process.
unfoldable pub process_job : Services → Uuid → Time → ProcessingEngine → Option ProcessingEngine
unfolding process_file
process_job services id now e =
    let file_run = process_file services id (e.jobs id) in
    elim file_run.ended [
      | finished result ↦ some (finish_job id file_run.records_total result now e)
      | panicked ↦ none
    ]

-- The `select` on the queue, of a job that has slept.
unfoldable pub queue_again : Uuid → Time → ProcessingEngine → ProcessingEngine
queue_again id now e =
    if has_room e
    then record e { file_queue = e.file_queue ++ id ∷ [] }
    else update_job_status id status_failed requeue_failed now e

-- `processJobWithWorker` after its sleep.
unfoldable pub requeue_job : Uuid → Time → ProcessingEngine → ProcessingEngine
unfolding queue_again
requeue_job id now e =
    if elem id e.sleeping
    then queue_again id now (record e { sleeping = remove id e.sleeping })
    else e

-- The goroutine of `updateJobStatus`, once its five minutes are over.
unfoldable pub expire_job : Uuid → ProcessingEngine → ProcessingEngine
unfolding remove_job
expire_job id e =
    if elem id e.expiring && not e.locked
    then remove_job id (record e { expiring = remove id e.expiring })
    else e

-- `updateMetrics`, without the rate, a float.
unfoldable pub update_metrics : ProcessingEngine → ProcessingEngine
update_metrics e = record e {
  metrics = record e.metrics {
    queued_jobs = length e.file_queue;
    active_workers = e.max_workers - length e.worker_pool;
  };
}

-- A call of `SubmitJob` makes its check, which releases the mutex.
abbrev pub begin : Option SubmitResult → Submission → ProcessingEngine → ProcessingEngine
begin none sub e = record e { entering = sub ∷ e.entering }
begin (some result) sub e = e

unfoldable pub begin_submission : Submission → ProcessingEngine → ProcessingEngine
unfolding check_submission
begin_submission sub e = begin (check_submission sub e) sub e

-- The entry at a place, and the others.
abbrev pub pick : ℕ → List Submission → Option (Submission × List Submission)
pick n [] = none
pick zero (sub ∷ subs) = some (sub, subs)
pick (suc n) (sub ∷ subs) = elim (pick n subs) [
  | none ↦ none
  | some picked ↦ some (picked.0, sub ∷ picked.1)
]

abbrev pub enter_picked :
    Option (Submission × List Submission)
    → ProcessingEngine
    → ProcessingEngine × Option SubmitResult
enter_picked none e = (e, none)
enter_picked (some (sub, rest)) e =
    let entered = enter_job sub (record e { entering = rest }) in (entered.0, some entered.1)

-- One of these calls waits for the mutex again, and goes on to its end.
unfoldable pub end_submission : ℕ → ProcessingEngine → ProcessingEngine × Option SubmitResult
unfolding enter_job
end_submission n e = if e.locked then (e, none) else enter_picked (pick n e.entering) e

pub data Event : Type 0 where
  starts workers_put dispatcher_starts stops received dispatched dispatcher_ends collected : Event
  offered : ℕ → Event
  submits checks : Submission → Event
  enters : ℕ → Event
  cancels : Uuid → Time → Event
  abandoned : Time → Event
  ended : Uuid → ℕ → Option FileError → Time → Event
  requeued : Uuid → Time → Event
  expired : Uuid → Event

-- `CancelJob` waits for the mutex. A call of `SubmitJob` is `checks` and then `enters`, with any steps between, or
-- `submits` where no step comes between.
unfoldable pub step : Event → ProcessingEngine → ProcessingEngine
step starts e = start e
step workers_put e = put_worker e
step dispatcher_starts e = start_dispatcher e
step stops e = stop e
step received e = receive_job e
step dispatched e = dispatch_job e
step dispatcher_ends e = end_dispatcher e
step collected e = update_metrics e
step (offered w) e = offer_worker w e
step (submits sub) e = (submit_job sub e).0
step (checks sub) e = begin_submission sub e
step (enters n) e = (end_submission n e).0
step (cancels id now) e = if e.locked then e else (cancel_job id now e).0
step (abandoned now) e = abandon_job now e
step (ended id total result now) e = finish_job id total result now e
step (requeued id now) e = requeue_job id now e
step (expired id) e = expire_job id e

unfoldable pub run : List Event → ProcessingEngine → ProcessingEngine
run [] e = e
run (event ∷ events) e = run events (step event e)
