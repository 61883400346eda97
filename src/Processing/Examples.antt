-- ===== src/Processing/Examples.antt =====
-- The engine at concrete inputs: tests, and the inputs of its theorems.
use hotel_reviews_microservi.Base.{
  codes, ◌+◌, ◌≤◌, ◌≡◌, ◌≢◌, ◌↔◌, refl, true, false, none, some, List, [], ◌∷◌, ◌++◌, arith, Time,
}
use hotel_reviews_microservi.Processing.Types.{
  Uuid, ProcessingJob, status_completed, process_failed,
}
use hotel_reviews_microservi.Processing.Url.{parse_s3_url, split_two, get_file_url, s3_scheme}
use hotel_reviews_microservi.Processing.Url.RoundTrip.{
  IsSlashFree, parse_s3_url_iff, parse_s3_url-get_file_url,
}
use hotel_reviews_microservi.Processing.File.{
  Services, found, opened, download_error, panicked, process_file,
}
use hotel_reviews_microservi.Processing.Engine.{
  ProcessingEngine, new_processing_engine, new_job, queue_size, Submission, submitted, queue_full,
  enter_job, submit_job, cancel_job, check_idempotency, update_job_status,
}
use hotel_reviews_microservi.Processing.Steps.{
  begin_submission, end_submission, start, put_worker, start_dispatcher, offer_worker, receive_job,
  dispatch_job, conclude, finish_job, requeue_job, Event, starts, workers_put, dispatcher_starts,
  received, dispatched, offered, submits, checks, enters, cancels, ended, requeued, step, run,
}
use hotel_reviews_microservi.Processing.Steps.Invariant.{in_flight, count_submitted, run-balance}
use hotel_reviews_microservi.Processing.Steps.Attempts.{waiting, count_runs, submit_job-count_runs}
use hotel_reviews_microservi.Processing.Steps.Live.{
  is_live_at, IsIdempotent, AreOrderly, run-IsIdempotent,
}
use hotel_reviews_microservi.Processing.Steps.Blocked.{IsBlocked, run-IsBlocked}
use hotel_reviews_microservi.Processing.Backpressure.{
  BackpressureController, should_accept_job, should_accept_job-submit_job,
}

abbrev some_job : Uuid → ProcessingJob
some_job id = new_job 0 (codes "") 0

new_engine : ProcessingEngine
unfolding new_processing_engine
new_engine = new_processing_engine 2 1 some_job

abbrev submission : Uuid → Time → Submission
submission id now = record {
  id = id;
  done = false;
  sees_done = false;
  provider_id = 9;
  file_url = codes "s3://b/f";
  now = now;
}

abbrev other_submission : Uuid → Time → Submission
other_submission id now = record (submission id now) { file_url = codes "s3://b/g" }

start_up : List Event
start_up = starts ∷ workers_put ∷ workers_put ∷ dispatcher_starts ∷ []

engine : ProcessingEngine
unfolding new_engine start_up run step start put_worker start_dispatcher
engine = run start_up new_engine

engine_started : engine.started ≡ true
unfolding engine
engine_started = refl

-- A job that fails once and is then completed.
abbrev retried : List Event
retried =
    submits (submission 5 1)
    ∷ received
    ∷ dispatched
    ∷ offered 0
    ∷ ended 5 3 (some (process_failed "broken")) 2
    ∷ requeued 5 4
    ∷ received
    ∷ dispatched
    ∷ ended 5 3 none 6
    ∷ []

retried_job : ((run retried engine).jobs 5).status ≡ status_completed
unfolding run step submit_job split_two parse_s3_url check_idempotency enter_job receive_job
    dispatch_job offer_worker finish_job conclude requeue_job update_job_status engine
retried_job = refl

-- A cancelled job is run, and so is the one that is submitted for the same file in the meantime.
abbrev twice : List Event
twice =
    submits (submission 5 1)
    ∷ received
    ∷ cancels 5 2
    ∷ submits (submission 6 3)
    ∷ dispatched
    ∷ received
    ∷ dispatched
    ∷ []

both_run : (is_live_at 5 (run twice engine) ≡ true) × (is_live_at 6 (run twice engine) ≡ true)
unfolding run step submit_job split_two parse_s3_url check_idempotency enter_job receive_job
    dispatch_job cancel_job update_job_status engine
both_run = (refl, refl)

-- Two calls of `SubmitJob` for one file that both have made their check before one has registered its job: both jobs
-- are queued.
abbrev overlapping : List Event
overlapping = checks (submission 5 1) ∷ checks (submission 6 1) ∷ enters 1 ∷ enters 0 ∷ []

both_queued : (run overlapping engine).file_queue ≡ 5 ∷ 6 ∷ []
unfolding run step begin_submission end_submission split_two parse_s3_url check_idempotency
    enter_job engine
both_queued = refl

blocked : ProcessingEngine
unfolding new_engine run step start put_worker offer_worker
blocked = run (starts ∷ workers_put ∷ offered 0 ∷ []) new_engine

-- The `https` form of an S3 URL is read from anywhere in the text.
odd_bucket :
    parse_s3_url (codes "https://e/s3.amazonaws.com/x")
    ≡ some (codes "https:", codes "/e/s3.amazonaws.com/x")
unfolding parse_s3_url split_two
odd_bucket = refl

parse_s3_url_iff_example :
    (parse_s3_url (s3_scheme ++ codes "b/f") ≡ some (codes "b", codes "f"))
    ↔ ((codes "b/f" ≡ codes "b" ++ b'/' ∷ codes "f") × IsSlashFree (codes "b"))
parse_s3_url_iff_example = parse_s3_url_iff (codes "b/f") (codes "b") (codes "f")

parse_s3_url-get_file_url_example :
    parse_s3_url (get_file_url (codes "b") (codes "f")) ≡ some (codes "b", codes "f")
parse_s3_url-get_file_url_example = parse_s3_url-get_file_url (codes "b") (codes "f") (omega arith)

abbrev reading : Services
reading = record {
  file_exists = λ bucket key. found;
  download_file = λ bucket key. opened 1;
  count_records = λ reader. some 3;
  download_file_again = λ bucket key. opened 2;
  process_records = λ reader provider id. none;
}

abbrev failing : Services
failing = record reading { download_file_again = λ bucket key. download_error "timeout" }

abbrev file_job : ProcessingJob
file_job = new_job 9 (codes "s3://b/f") 1

-- The first reader is never closed and the second is closed twice.
closed_twice :
    ((process_file reading 5 file_job).opened_readers ≡ 1 ∷ 2 ∷ [])
    × ((process_file reading 5 file_job).closed_readers ≡ 2 ∷ 2 ∷ [])
unfolding process_file parse_s3_url split_two
closed_twice = (refl, refl)

panics : (process_file failing 5 file_job).ended ≡ panicked
unfolding process_file parse_s3_url split_two
panics = refl

run-balance_example :
    in_flight (run retried engine) + (run retried engine).metrics.total_jobs_processed
    ≡ in_flight engine + engine.metrics.total_jobs_processed + count_submitted retried engine
run-balance_example = run-balance retried engine

queued_now : (submit_job (submission 5 1) engine).1 ≡ submitted 5
unfolding submit_job split_two parse_s3_url check_idempotency enter_job engine
queued_now = refl

none_waits : waiting 5 engine ≡ 0
unfolding engine
none_waits = refl

abbrev after : List Event
after =
    received
    ∷ dispatched
    ∷ submits (submission 6 1)
    ∷ ended 5 3 (some (process_failed "broken")) 2
    ∷ []

submit_job-count_runs_example : count_runs after 5 (submit_job (submission 5 1) engine).0 ≤ 4
submit_job-count_runs_example =
    submit_job-count_runs after (submission 5 1) engine none_waits queued_now
      (refl, (refl, (refl, (refl, tt))))

nothing_there : IsIdempotent new_engine
unfolding new_engine
nothing_there = (λ id. ground arith, λ a b la lb same. cc, tt)

orderly_start : AreOrderly start_up new_engine
unfolding new_engine start_up
orderly_start = (tt, (tt, (tt, (tt, tt))))

engine-IsIdempotent : IsIdempotent engine
unfolding engine
engine-IsIdempotent = run-IsIdempotent start_up new_engine orderly_start nothing_there

abbrev two_jobs : List Event
two_jobs =
    submits (submission 5 1)
    ∷ received
    ∷ dispatched
    ∷ checks (submission 7 2)
    ∷ checks (other_submission 6 3)
    ∷ ended 5 3 none 4
    ∷ enters 0
    ∷ []

orderly : AreOrderly two_jobs engine
unfolding run step submit_job begin_submission end_submission split_two parse_s3_url
    check_idempotency enter_job receive_job dispatch_job finish_job conclude update_job_status
    engine
orderly = (
  ((refl, refl), refl),
  (tt, (tt, (((refl, refl), refl), (((refl, refl), refl), (tt, (tt, tt)))))),
)

run-IsIdempotent_example : IsIdempotent (run two_jobs engine)
run-IsIdempotent_example = run-IsIdempotent two_jobs engine orderly engine-IsIdempotent

is_blocked : IsBlocked blocked
unfolding blocked
is_blocked = record {
  to_put = refl;
  full = omega arith;
  locked = refl;
  not_started = refl;
  not_dispatching = refl;
}

run-IsBlocked_example :
    ((run retried blocked).started ≡ false) × ((run retried blocked).locked ≡ true)
run-IsBlocked_example = run-IsBlocked retried blocked is_blocked

controller : BackpressureController
controller = record { max_queue_size = 2; max_memory_usage = 100; current_memory_usage = 10 }

accepts : should_accept_job controller engine ≡ true
unfolding controller should_accept_job engine
accepts = refl

within_size : controller.max_queue_size ≤ queue_size engine
unfolding controller engine
within_size = omega arith

should_accept_job-submit_job_example : (submit_job (submission 5 1) engine).1 ≢ queue_full
should_accept_job-submit_job_example =
    should_accept_job-submit_job controller engine (submission 5 1) within_size accepts
