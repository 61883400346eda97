-- ===== src/Processing/Steps/Invariant.antt =====
-- What the steps keep: the bounds of the queue and the pool, and that no job is lost.
use hotel_reviews_microservi.Base.{
  ℕ, suc, ◌+◌, ◌≤◌, ◌≡◌, refl, Bool, true, false, Option, none, some, List, [], ◌∷◌, length,
  length-append, arith, Bool-cases, inl, inr, Option-cases, ◌⊎◌,
}
use hotel_reviews_microservi.Processing.Types.{Uuid}
use hotel_reviews_microservi.Processing.Url.{parse_s3_url}
use hotel_reviews_microservi.Processing.Engine.{
  ProcessingEngine, queue_size, elem, remove, update_job_status, Submission, SubmitResult,
  submitted, existing, not_started, invalid_file_url, enter_job, check_idempotency,
  check_submission, sees_context, has_room, submit_job, cancel_job,
}
use hotel_reviews_microservi.Processing.Steps.{
  begin_submission, pick, enter_picked, end_submission, start, put_worker, start_dispatcher,
  offer_worker, stop, receive_job, dispatch_job, abandon_job, end_dispatcher, runs_job, remove_run,
  conclude, finish_job, requeue_job, expire_job, update_metrics, Event, starts, workers_put,
  dispatcher_starts, stops, received, dispatched, dispatcher_ends, collected, offered, submits,
  checks, enters, cancels, abandoned, ended, requeued, expired, step, run,
}

abbrev pub held_count : Option Uuid → ℕ
held_count none = 0
held_count (some id) = 1

-- The jobs that are in the queue, with the dispatcher, in a run, or asleep.
abbrev pub in_flight : ProcessingEngine → ℕ
in_flight e = length e.file_queue + held_count e.held + length e.running + length e.sleeping

abbrev is_submitted : SubmitResult → ℕ
is_submitted (submitted id) = 1
is_submitted _ = 0

abbrev is_entered : Option SubmitResult → ℕ
is_entered none = 0
is_entered (some result) = is_submitted result

-- The results of `SubmitJob` that make no job.
abbrev pub is_early : SubmitResult → Bool
is_early (existing id) = true
is_early not_started = true
is_early invalid_file_url = true
is_early _ = false

is_early-is_submitted : (r : SubmitResult) → is_early r ≡ true → is_submitted r ≡ 0
is_early-is_submitted r h = ground arith

-- How many jobs an event submits to the queue.
abbrev newly : Event → ProcessingEngine → ℕ
newly (submits sub) e = is_submitted (submit_job sub e).1
newly (enters n) e = is_entered (end_submission n e).1
newly _ e = 0

-- How many jobs a schedule submits to the queue.
unfoldable pub count_submitted : List Event → ProcessingEngine → ℕ
count_submitted [] e = 0
count_submitted (event ∷ events) e = newly event e + count_submitted events (step event e)

length-remove_run :
    (id : Uuid) (running : List (ℕ × Uuid))
    → runs_job id running ≡ true
    → suc (length (remove_run id running)) ≡ length running
length-remove_run id [] h = cc
length-remove_run id (r ∷ running) h = ground (arith, length-remove_run id running)

length-remove :
    (id : Uuid) (ids : List Uuid) → elem id ids ≡ true → suc (length (remove id ids)) ≡ length ids
length-remove id [] h = cc
length-remove id (x ∷ ids) h = ground (arith, length-remove id ids)

pub check_submission-cases :
    (sub : Submission) (e : ProcessingEngine)
    → ((r : SubmitResult) × (check_submission sub e ≡ some r) × (is_early r ≡ true))
      ⊎ (check_idempotency sub.provider_id sub.file_url e.jobs e.active_jobs ≡ none)
        × (check_submission sub e ≡ none)
unfolding check_submission
check_submission-cases sub e = elim (Bool-cases e.started) [
  | inr off ↦ inl (not_started, simp off, refl)
  | inl on ↦ elim (Option-cases (parse_s3_url sub.file_url)) [
    | inl bad ↦ inl (invalid_file_url, simp (on, bad), refl)
    | inr (url, parsed) ↦
        elim (Option-cases (check_idempotency sub.provider_id sub.file_url e.jobs e.active_jobs)) [
          | inl fresh ↦ inr (fresh, simp (on, parsed, fresh))
          | inr (id, found) ↦ inl (existing id, simp (on, parsed, found), refl)
        ]
  ]
]

-- A submission changes nothing and makes no job, or enters a job that no live job equals.
pub submit_job-cases :
    (sub : Submission) (e : ProcessingEngine)
    → ((r : SubmitResult) × (submit_job sub e ≡ (e, r)) × (is_early r ≡ true))
      ⊎ (check_idempotency sub.provider_id sub.file_url e.jobs e.active_jobs ≡ none)
        × (submit_job sub e ≡ enter_job sub e)
unfolding submit_job
submit_job-cases sub e = elim (check_submission-cases sub e) [
  | inl (r, checked, early) ↦ inl (r, simp (submit_job, checked), early)
  | inr (fresh, checked) ↦ inr (fresh, simp (submit_job, checked))
]

-- What is counted, and what is bounded.
abbrev balance : ProcessingEngine → ℕ
balance e = in_flight e + e.metrics.total_jobs_processed

enter_job-balance :
    (sub : Submission) (e : ProcessingEngine)
    → balance (enter_job sub e).0 ≡ balance e + is_submitted (enter_job sub e).1
unfolding enter_job
enter_job-balance sub e = elim (Bool-cases (sees_context sub e)) [
  | inl done ↦ simp done (omega arith)
  | inr going ↦ elim (Bool-cases (has_room e)) [
    | inl room ↦ simp going (simp room (omega (arith, length-append e.file_queue (sub.id ∷ []))))
    | inr full ↦ simp going (simp full (omega arith))
  ]
]

submit_job-balance :
    (sub : Submission) (e : ProcessingEngine)
    → balance (submit_job sub e).0 ≡ balance e + is_submitted (submit_job sub e).1
submit_job-balance sub e = elim (submit_job-cases sub e) [
  | inl (r, same, refused) ↦ rw same (omega (arith, is_early-is_submitted r refused))
  | inr entered ↦ rw entered.1 (enter_job-balance sub e)
]

-- The end of a submission changes nothing, or enters the job of one that was entering.
pub end_submission-cases :
    (n : ℕ) (e : ProcessingEngine)
    → (end_submission n e ≡ (e, none))
      ⊎ ((sub : Submission) × (rest : List Submission) × (pick n e.entering ≡ some (sub, rest))
          × (end_submission n e ≡ enter_picked (some (sub, rest)) e))
unfolding end_submission
end_submission-cases n e = elim (Bool-cases e.locked) [
  | inl held ↦ inl (rw (end_submission, held) refl)
  | inr free ↦ elim (Option-cases (pick n e.entering)) [
    | inl gone ↦ inl (ground (arith, free, gone))
    | inr ((sub, rest), found) ↦ inr (sub, rest, found, ground (arith, free, found))
  ]
]

end_submission-balance :
    (n : ℕ) (e : ProcessingEngine)
    → balance (end_submission n e).0 ≡ balance e + is_entered (end_submission n e).1
end_submission-balance n e = elim (end_submission-cases n e) [
  | inl same ↦ rw same (omega arith)
  | inr (sub, rest, found, entered) ↦
      rw entered (enter_job-balance sub (record e { entering = rest }))
]

step-balance :
    (event : Event) (e : ProcessingEngine) → balance (step event e) ≡ balance e + newly event e
unfolding step
step-balance starts e = unfold start in ground arith
step-balance workers_put e = unfold put_worker in ground arith
step-balance dispatcher_starts e = unfold start_dispatcher in ground arith
step-balance stops e = unfold stop in ground arith
step-balance received e = unfold receive_job in ground arith
step-balance dispatched e = unfold dispatch_job update_job_status in ground arith
step-balance dispatcher_ends e = unfold end_dispatcher in ground arith
step-balance collected e = unfold update_metrics in ground arith
step-balance (offered w) e = unfold offer_worker in ground arith
step-balance (submits sub) e = submit_job-balance sub e
step-balance (checks sub) e = unfold begin_submission in ground arith
step-balance (enters n) e = end_submission-balance n e
step-balance (cancels id now) e = unfold cancel_job in ground arith
step-balance (abandoned now) e = unfold abandon_job update_job_status in ground arith
step-balance (ended id total result now) e =
    unfold finish_job conclude update_job_status in ground (arith, length-remove_run id e.running)
step-balance (requeued id now) e =
    unfold requeue_job update_job_status in
    ground (arith, length-remove id e.sleeping, length-append e.file_queue (id ∷ []))
step-balance (expired id) e = unfold expire_job in ground arith

-- No job is lost or counted twice: after any schedule the jobs that are in the queue, with the dispatcher, in a
-- run or asleep, and those that the metrics count as processed, are together those of before and those
-- that the schedule submitted.
pub run-balance :
    (events : List Event) (e : ProcessingEngine)
    → in_flight (run events e) + (run events e).metrics.total_jobs_processed
      ≡ in_flight e + e.metrics.total_jobs_processed + count_submitted events e
unfolding run count_submitted
run-balance [] e = omega arith
run-balance (event ∷ events) e =
    omega (arith, step-balance event e, run-balance events (step event e))

-- The bounds of the queue and of the pool, and of the errors that are counted.
pub record IsBounded (e : ProcessingEngine) : Type 0 where
  pub queue : length e.file_queue ≤ queue_size e
  pub pool : length e.worker_pool ≤ e.max_workers
  pub errors : e.metrics.total_errors ≤ e.metrics.total_jobs_processed
