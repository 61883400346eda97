-- ===== src/Processing/Backpressure.antt =====
-- `BackpressureController` and `JobProgressTracker`.
use hotel_reviews_microservi.Base.{
  ℕ, ◌≤◌, ◌≡◌, ◌≢◌, Bool, true, false, leb, length, if◌then◌else◌, arith, Bool-cases, inl, inr,
}
use hotel_reviews_microservi.Processing.Types.{Uuid}
use hotel_reviews_microservi.Processing.Engine.{
  ProcessingEngine, queue_size, has_room, set_job, Submission, queue_full, enter_job, submit_job,
}
use hotel_reviews_microservi.Processing.Steps.Invariant.{submit_job-cases}

pub record BackpressureController : Type 0 where
  pub max_queue_size : ℕ
  pub max_memory_usage : ℕ
  pub current_memory_usage : ℕ

unfoldable pub should_accept_job : BackpressureController → ProcessingEngine → Bool
should_accept_job bc e =
    if leb bc.max_queue_size (length e.file_queue)
    then false
    else if leb bc.max_memory_usage bc.current_memory_usage
    then false
    else true

unfoldable pub update_memory_usage : ℕ → BackpressureController → BackpressureController
update_memory_usage usage bc = record bc { current_memory_usage = usage }

-- `UpdateProgress`, without its message to the log.
unfoldable pub update_progress : Uuid → ℕ → ProcessingEngine → ProcessingEngine
update_progress id n e = record e {
  jobs = set_job id (record (e.jobs id) { records_processed = n }) e.jobs;
}

enter_job-ne-queue_full :
    (sub : Submission) (e : ProcessingEngine) → has_room e ≡ true → (enter_job sub e).1 ≢ queue_full
unfolding enter_job
enter_job-ne-queue_full sub e room full = elim (Bool-cases sub.done) [
  | inl done ↦ ground (arith, done, room, full)
  | inr going ↦ ground (arith, going, room, full)
]

-- Where the controller's limit is not above the size of the engine's queue and it accepts a job, a call of `SubmitJob`
-- at once, in the same state, does not find the queue full.
pub should_accept_job-submit_job :
    (bc : BackpressureController) (e : ProcessingEngine) (sub : Submission)
    → bc.max_queue_size ≤ queue_size e
    → should_accept_job bc e ≡ true
    → (submit_job sub e).1 ≢ queue_full
unfolding should_accept_job
should_accept_job-submit_job bc e sub h accepted full =
    let room : has_room e ≡ true = ground (arith, h, accepted) in
    elim (submit_job-cases sub e) [
      | inl (r, same, refused) ↦ ground (arith, same, refused, full)
      | inr entered ↦ enter_job-ne-queue_full sub e room (rw (← entered.1) full)
    ]
