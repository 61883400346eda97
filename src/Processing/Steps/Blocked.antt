-- ===== src/Processing/Steps/Blocked.antt =====
-- A start that never ends: the workers that are in the pool are offered again before the others are put in.
use hotel_reviews_microservi.Base.{ℕ, ◌≤◌, ◌≡◌, Bool, true, false, List, [], ◌∷◌, length, arith}
use hotel_reviews_microservi.Processing.Engine.{
  ProcessingEngine, update_job_status, check_submission, submit_job,
}
use hotel_reviews_microservi.Processing.Steps.{
  begin_submission, end_submission, start, put_worker, start_dispatcher, offer_worker, stop,
  receive_job, dispatch_job, abandon_job, end_dispatcher, conclude, finish_job, requeue_job,
  expire_job, update_metrics, Event, starts, workers_put, dispatcher_starts, stops, received,
  dispatched, dispatcher_ends, collected, offered, submits, checks, enters, cancels, abandoned,
  ended, requeued, expired, step, run,
}

abbrev pub is_empty : List ℕ → Bool
is_empty [] = true
is_empty (w ∷ rest) = false

-- `Start` holds the mutex and has workers to put into a pool that is full, and there is no dispatcher to
-- take one out.
pub record IsBlocked (e : ProcessingEngine) : Type 0 where
  pub to_put : is_empty e.starting ≡ false
  pub full : e.max_workers ≤ length e.worker_pool
  pub locked : e.locked ≡ true
  pub not_started : e.started ≡ false
  pub not_dispatching : e.dispatching ≡ false

step-IsBlocked : (event : Event) (e : ProcessingEngine) → IsBlocked e → IsBlocked (step event e)
unfolding step
step-IsBlocked starts e b = unfold start in ground arith
step-IsBlocked workers_put e b = unfold put_worker in ground arith
step-IsBlocked dispatcher_starts e b = unfold start_dispatcher in ground arith
step-IsBlocked stops e b = unfold stop in ground arith
step-IsBlocked received e b = unfold receive_job in ground arith
step-IsBlocked dispatched e b = unfold dispatch_job in ground arith
step-IsBlocked dispatcher_ends e b = unfold end_dispatcher in ground arith
step-IsBlocked collected e b = unfold update_metrics in ground arith
step-IsBlocked (offered w) e b = unfold offer_worker in ground arith
step-IsBlocked (submits sub) e b = unfold submit_job check_submission in ground arith
step-IsBlocked (checks sub) e b = unfold begin_submission check_submission in ground arith
step-IsBlocked (enters n) e b = unfold end_submission in ground arith
step-IsBlocked (cancels id now) e b = ground arith
step-IsBlocked (abandoned now) e b = unfold abandon_job update_job_status in ground arith
step-IsBlocked (ended id total result now) e b =
    unfold finish_job conclude update_job_status in ground arith
step-IsBlocked (requeued id now) e b = unfold requeue_job update_job_status in ground arith
step-IsBlocked (expired id) e b = unfold expire_job in ground arith

-- Where `Start` still has workers to put into a pool that is full, and the dispatcher does not run, no schedule
-- of the engine's steps ever starts it, and it keeps the mutex of the jobs.
pub run-IsBlocked :
    (events : List Event) (e : ProcessingEngine)
    → IsBlocked e
    → ((run events e).started ≡ false) × ((run events e).locked ≡ true)
unfolding run
run-IsBlocked [] e b = (b.not_started, b.locked)
run-IsBlocked (event ∷ events) e b = run-IsBlocked events (step event e) (step-IsBlocked event e b)
