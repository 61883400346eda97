-- ===== src/Processing/Steps/Attempts.antt =====
-- How often a job is handed to a worker.
use hotel_reviews_microservi.Base.{
  ℕ, ◌+◌, ◌≤◌, ◌≡◌, Bool, true, false, Option, none, some, List, [], ◌∷◌, ◌++◌, arith,
  if◌then◌else◌, Bool-cases, Option-cases, zero, suc, inl, inr, ◌==◌,
}
use hotel_reviews_microservi.Processing.Types.{Uuid}
use hotel_reviews_microservi.Processing.Engine.{
  ProcessingEngine, elem, remove, has_room, update_job_status, Submission, submitted, sees_context,
  enter_job, submit_job, cancel_job,
}
use hotel_reviews_microservi.Processing.Steps.{
  begin_submission, pick, end_submission, put_next, start, put_worker, start_dispatcher,
  offer_worker, stop, receive_job, dispatch_job, abandon_job, end_dispatcher, conclude, finish_job,
  requeue_job, expire_job, update_metrics, Event, starts, workers_put, dispatcher_starts, stops,
  received, dispatched, dispatcher_ends, collected, offered, submits, checks, enters, cancels,
  abandoned, ended, requeued, expired, step, run,
}
use hotel_reviews_microservi.Processing.Steps.Invariant.{submit_job-cases, end_submission-cases}

abbrev pub count : Uuid → List Uuid → ℕ
count id [] = 0
count id (x ∷ ids) = (if x == id then 1 else 0) + count id ids

abbrev pub holds : Uuid → Option Uuid → ℕ
holds id none = 0
holds id (some other) = if other == id then 1 else 0

abbrev pub count_entering : Uuid → List Submission → ℕ
count_entering id [] = 0
count_entering id (sub ∷ subs) = (if sub.id == id then 1 else 0) + count_entering id subs

-- How often the job waits for a worker: in the queue, with the dispatcher, asleep, and in the calls of
-- `SubmitJob` that have still to register it.
abbrev pub waiting : Uuid → ProcessingEngine → ℕ
waiting id e =
    count id e.file_queue + holds id e.held + count id e.sleeping + count_entering id e.entering

abbrev can_give : Option Uuid → List ℕ → Bool → Uuid → ℕ
can_give (some other) (w ∷ rest) true id = if other == id then 1 else 0
can_give _ _ _ id = 0

-- Whether the event hands the job to a worker.
abbrev hands_over : Event → Uuid → ProcessingEngine → ℕ
hands_over dispatched id e = can_give e.held e.worker_pool e.dispatching id
hands_over _ id e = 0

-- How often a schedule hands the job to a worker.
unfoldable pub count_runs : List Event → Uuid → ProcessingEngine → ℕ
count_runs [] id e = 0
count_runs (event ∷ events) id e = hands_over event id e + count_runs events id (step event e)

abbrev is_new : Event → Uuid → Bool
is_new (submits sub) id = sub.id == id
is_new (checks sub) id = sub.id == id
is_new _ id = false

-- No submission of the schedule makes this UUID.
abbrev pub NotMadeBy : List Event → Uuid → Type 0
NotMadeBy [] id = Unit {0}
NotMadeBy (event ∷ events) id = (is_new event id ≡ false) × NotMadeBy events id

pub count-append :
    (id other : Uuid) (ids : List Uuid)
    → count id (ids ++ other ∷ []) ≡ count id ids + (if other == id then 1 else 0)
count-append id other [] = omega arith
count-append id other (x ∷ ids) = omega (arith, count-append id other ids)

pub count-remove :
    (id other : Uuid) (ids : List Uuid)
    → elem other ids ≡ true
    → count id (remove other ids) + (if other == id then 1 else 0) ≡ count id ids
count-remove id other [] h = cc
count-remove id other (x ∷ ids) h = ground (arith, count-remove id other ids)

-- What a step that hands the job over `n` times leaves to it: a retry for each time that it waits again.
record Kept (n : ℕ) (id : Uuid) (e e' : ProcessingEngine) : Type 0 where
  most : (e'.jobs id).max_retries ≡ (e.jobs id).max_retries
  within : (e'.jobs id).retry_count ≤ (e'.jobs id).max_retries
  registered : count_entering id e'.entering ≡ 0
  less : n + waiting id e' + (e.jobs id).retry_count ≤ waiting id e + (e'.jobs id).retry_count

abbrev pub IsWithin : Uuid → ProcessingEngine → Type 0
IsWithin id e =
    ((e.jobs id).retry_count ≤ (e.jobs id).max_retries) × (count_entering id e.entering ≡ 0)

count_entering-pick :
    (id : Uuid) (n : ℕ) (subs : List Submission) (sub : Submission) (rest : List Submission)
    → pick n subs ≡ some (sub, rest)
    → count_entering id rest + (if sub.id == id then 1 else 0) ≡ count_entering id subs
count_entering-pick id n [] sub rest h = cc
count_entering-pick id zero (x ∷ subs) sub rest h = ground (arith, h)
count_entering-pick id (suc n) (x ∷ subs) sub rest h = elim (Option-cases (pick n subs)) [
  | inl gone ↦ ground (arith, h, gone)
  | inr ((found, others), p) ↦ ground (arith, h, p, count_entering-pick id n subs found others p)
]

module _ (id : Uuid) where
  enter_job-Kept :
      (sub : Submission) (e : ProcessingEngine)
      → IsWithin id e
      → sub.id == id ≡ false
      → Kept 0 id e (enter_job sub e).0
  unfolding enter_job
  enter_job-Kept sub e w other = elim (Bool-cases (sees_context sub e)) [
    | inl done ↦ simp done (ground (arith, w, other))
    | inr going ↦ elim (Bool-cases (has_room e)) [
      | inl room ↦
          simp going (simp room (ground (arith, w, other, count-append id sub.id e.file_queue)))
      | inr full ↦ simp going (simp full (ground (arith, w, other)))
    ]
  ]

module _ (id : Uuid) (e : ProcessingEngine) (w : IsWithin id e) where
  put_next-Kept : (workers : List ℕ) → Kept 0 id e (put_next workers e)
  put_next-Kept [] = ground (arith, w)
  put_next-Kept (x ∷ rest) = ground (arith, w)

  submit_job-Kept : (sub : Submission) → sub.id == id ≡ false → Kept 0 id e (submit_job sub e).0
  submit_job-Kept sub other = elim (submit_job-cases sub e) [
    | inl (r, same, refused) ↦ rw same (ground (arith, w))
    | inr entered ↦ rw entered.1 (enter_job-Kept id sub e w other)
  ]

  end_submission-Kept : (n : ℕ) → Kept 0 id e (end_submission n e).0
  end_submission-Kept n = elim (end_submission-cases n e) [
    | inl same ↦ rw same (ground (arith, w))
    | inr (sub, rest, found, entered) ↦
        let entry = count_entering-pick id n e.entering sub rest found in
        let kept =
          enter_job-Kept id sub (record e { entering = rest }) (w.0, ground (arith, w, entry))
            (ground (arith, w, entry)) in
        rw entered (record {
          most = kept.most;
          within = kept.within;
          registered = kept.registered;
          less = let l = kept.less in ground (arith, l, w, entry);
        })
  ]

  step-Kept :
      (event : Event) → is_new event id ≡ false → Kept (hands_over event id e) id e (step event e)
  unfolding step
  step-Kept starts new = unfold start in ground (arith, w)
  step-Kept workers_put new = unfold put_worker in put_next-Kept e.starting
  step-Kept dispatcher_starts new = unfold start_dispatcher in ground (arith, w)
  step-Kept stops new = unfold stop in ground (arith, w)
  step-Kept received new = unfold receive_job in ground (arith, w)
  step-Kept dispatched new = unfold dispatch_job update_job_status in ground (arith, w)
  step-Kept dispatcher_ends new = unfold end_dispatcher in ground (arith, w)
  step-Kept collected new = unfold update_metrics in ground (arith, w)
  step-Kept (offered x) new = unfold offer_worker in ground (arith, w)
  step-Kept (submits sub) new = submit_job-Kept sub new
  step-Kept (checks sub) new = unfold begin_submission in ground (arith, w)
  step-Kept (enters n) new = end_submission-Kept n
  step-Kept (cancels other now) new = unfold cancel_job in ground (arith, w)
  step-Kept (abandoned now) new = unfold abandon_job update_job_status in ground (arith, w)
  step-Kept (ended other total result now) new =
      unfold finish_job conclude update_job_status in ground (arith, w)
  step-Kept (requeued other now) new =
      unfold requeue_job update_job_status in
      ground (arith, w, count-append id other e.file_queue, count-remove id other e.sleeping)
  step-Kept (expired other) new = unfold expire_job in ground (arith, w)

run-Kept :
    (events : List Event) (id : Uuid) (e : ProcessingEngine)
    → NotMadeBy events id
    → IsWithin id e
    → Kept (count_runs events id e) id e (run events e)
unfolding run count_runs
run-Kept [] id e new w = ground (arith, w)
run-Kept (event ∷ events) id e new w =
    let first = step-Kept id e w event new.0 in
    let rest = run-Kept events id (step event e) new.1 (first.within, first.registered) in
    ground (arith, first, rest)

-- In any schedule that does not make its UUID again, a job that no call has still to register is handed to a worker at most once for each time that
-- it waits at the start, and once for each of the retries that are left to it.
pub count_runs_bounded :
    (events : List Event) (id : Uuid) (e : ProcessingEngine)
    → NotMadeBy events id
    → IsWithin id e
    → count_runs events id e + (e.jobs id).retry_count ≤ waiting id e + (e.jobs id).max_retries
count_runs_bounded events id e new w = let kept = run-Kept events id e new w in omega (arith, kept)

-- What holds of a job that has just been queued.
record IsQueued (id : Uuid) (e e' : ProcessingEngine) : Type 0 where
  none_used : (e'.jobs id).retry_count ≡ 0
  three : (e'.jobs id).max_retries ≡ 3
  once : waiting id e' ≡ waiting id e + 1
  registered : count_entering id e'.entering ≡ count_entering id e.entering

enter_job-IsQueued :
    (sub : Submission) (e : ProcessingEngine)
    → (enter_job sub e).1 ≡ submitted sub.id
    → IsQueued sub.id e (enter_job sub e).0
unfolding enter_job
enter_job-IsQueued sub e queued = elim (Bool-cases (sees_context sub e)) [
  | inl done ↦ absurd (ground (arith, done, queued))
  | inr going ↦ elim (Bool-cases (has_room e)) [
    | inl room ↦ simp going (simp room (ground (arith, count-append sub.id sub.id e.file_queue)))
    | inr full ↦ absurd (ground (arith, going, full, queued))
  ]
]

submit_job-IsQueued :
    (sub : Submission) (e : ProcessingEngine)
    → (submit_job sub e).1 ≡ submitted sub.id
    → IsQueued sub.id e (submit_job sub e).0
submit_job-IsQueued sub e queued = elim (submit_job-cases sub e) [
  | inl (r, same, refused) ↦ absurd (ground (arith, same, refused, queued))
  | inr entered ↦ rw entered.1 (enter_job-IsQueued sub e (rw (← entered.1) queued))
]

-- A job that `SubmitJob` has just queued under a UUID that did not wait is handed to a worker at most four times
-- in any schedule that does not make its UUID again.
pub submit_job-count_runs :
    (events : List Event) (sub : Submission) (e : ProcessingEngine)
    → waiting sub.id e ≡ 0
    → (submit_job sub e).1 ≡ submitted sub.id
    → NotMadeBy events sub.id
    → count_runs events sub.id (submit_job sub e).0 ≤ 4
submit_job-count_runs events sub e fresh queued new =
    let q = submit_job-IsQueued sub e queued in
    omega (
      arith,
      q,
      count_runs_bounded events sub.id (submit_job sub e).0 new
          (omega (arith, q), omega (arith, q)),
    )
