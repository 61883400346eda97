-- ===== src/Processing/Steps/Live.antt =====
-- At most one job is there for a file of a provider, as long as no job is cancelled and no two calls of `SubmitJob`
-- overlap from the check to the registration.
use hotel_reviews_microservi.Base.{
  ℕ, zero, suc, ◌+◌, ◌≤◌, ◌≡◌, refl, sym, ap, subst, Bool, true, false, ◌&&◌, Option, none, some,
  List, [], ◌∷◌, arith, if◌then◌else◌, Bool-cases, inl, inr, ◌==◌,
}
use hotel_reviews_microservi.Processing.Types.{Uuid, Bytes, bytes_eq, ProcessingJob, is_live}
use hotel_reviews_microservi.Processing.Engine.{
  ProcessingEngine, elem, delete_all, has_room, update_job_status, Submission, is_same_live,
  check_idempotency, sees_context, enter_job, submit_job,
}
use hotel_reviews_microservi.Processing.Steps.{
  begin_submission, pick, end_submission, put_next, start, put_worker, start_dispatcher,
  offer_worker, stop, receive_job, dispatch_job, abandon_job, end_dispatcher, runs_job, remove_run,
  conclude, finish_job, requeue_job, expire_job, update_metrics, Event, starts, workers_put,
  dispatcher_starts, stops, received, dispatched, dispatcher_ends, collected, offered, submits,
  checks, enters, cancels, abandoned, ended, requeued, expired, step, run,
}
use hotel_reviews_microservi.Processing.Steps.Invariant.{
  check_submission-cases, submit_job-cases, end_submission-cases,
}
use hotel_reviews_microservi.Processing.Steps.Attempts.{count, holds, count-append, count-remove}

abbrev pub count_running : Uuid → List (ℕ × Uuid) → ℕ
count_running id [] = 0
count_running id (r ∷ running) = (if r.1 == id then 1 else 0) + count_running id running

-- How often the job is in the engine's hands.
abbrev pub places : Uuid → ProcessingEngine → ℕ
places id e =
    count id e.file_queue + holds id e.held + count id e.sleeping + count_running id e.running

abbrev pub live_count : Uuid → ProcessingEngine → ℕ
live_count id e = if is_live (e.jobs id).status then 1 else 0

-- The job is in one place at most, and in none where its status is final.
abbrev pub IsPlaced : ProcessingEngine → Type 0
IsPlaced e = (id : Uuid) → places id e ≤ live_count id e

abbrev pub is_live_at : Uuid → ProcessingEngine → Bool
is_live_at id e = elem id e.active_jobs && is_live (e.jobs id).status

abbrev pub same_file : Uuid → Uuid → ProcessingEngine → Bool
same_file a b e =
    (e.jobs a).provider_id == (e.jobs b).provider_id
    && bytes_eq (e.jobs a).file_url (e.jobs b).file_url

-- Two active jobs that are pending, running or retrying have not both the same provider and file.
abbrev pub IsUnique : ProcessingEngine → Type 0
IsUnique e =
    (a b : Uuid) → is_live_at a e ≡ true → is_live_at b e ≡ true → same_file a b e ≡ true → a ≡ b

count_running-remove :
    (id other : Uuid) (running : List (ℕ × Uuid))
    → runs_job other running ≡ true
    → count_running id (remove_run other running) + (if other == id then 1 else 0)
      ≡ count_running id running
count_running-remove id other [] h = cc
count_running-remove id other (r ∷ running) h =
    ground (arith, count_running-remove id other running)

elem-delete_all :
    (id other : Uuid) (ids : List Uuid) → elem id (delete_all other ids) ≡ true → elem id ids ≡ true
elem-delete_all id other [] h = h
elem-delete_all id other (x ∷ ids) h = ground (arith, elem-delete_all id other ids)

-- What a step without a submission may do to a job: it makes none active or live that was not, and leaves its
-- provider and file.
record Calms (id : Uuid) (e e' : ProcessingEngine) : Type 0 where
  placed : places id e' ≤ live_count id e'
  fewer : is_live_at id e' ≡ true → is_live_at id e ≡ true
  provider : (e'.jobs id).provider_id ≡ (e.jobs id).provider_id
  file : (e'.jobs id).file_url ≡ (e.jobs id).file_url
  nowhere : places id e ≡ 0 → places id e' ≡ 0
  absent : elem id e.active_jobs ≡ false → elem id e'.active_jobs ≡ false
  entering : e'.entering ≡ e.entering

-- Events that neither submit nor cancel a job.
abbrev is_calm : Event → Bool
is_calm (submits sub) = false
is_calm (checks sub) = false
is_calm (enters n) = false
is_calm (cancels id now) = false
is_calm _ = true

module _ (id : Uuid) (e : ProcessingEngine) (p : IsPlaced e) where
  put_next-Calms : (workers : List ℕ) → Calms id e (put_next workers e)
  put_next-Calms [] = ground (arith, p id)
  put_next-Calms (x ∷ rest) = ground (arith, p id)

  step-Calms : (event : Event) → is_calm event ≡ true → Calms id e (step event e)
  unfolding step
  step-Calms starts c = unfold start in ground (arith, p id)
  step-Calms workers_put c = unfold put_worker in put_next-Calms e.starting
  step-Calms dispatcher_starts c = unfold start_dispatcher in ground (arith, p id)
  step-Calms stops c = unfold stop in ground (arith, p id)
  step-Calms received c = unfold receive_job in ground (arith, p id)
  step-Calms dispatched c = unfold dispatch_job update_job_status in ground (arith, p id)
  step-Calms dispatcher_ends c = unfold end_dispatcher in ground (arith, p id)
  step-Calms collected c = unfold update_metrics in ground (arith, p id)
  step-Calms (offered x) c = unfold offer_worker in ground (arith, p id)
  step-Calms (submits sub) c = cc
  step-Calms (checks sub) c = cc
  step-Calms (enters n) c = cc
  step-Calms (cancels other now) c = cc
  step-Calms (abandoned now) c = unfold abandon_job update_job_status in ground (arith, p id)
  step-Calms (ended other total result now) c =
      unfold finish_job conclude update_job_status in
      ground (arith, p id, count_running-remove id other e.running)
  step-Calms (requeued other now) c =
      unfold requeue_job update_job_status in
      ground (arith, p id, count-append id other e.file_queue, count-remove id other e.sleeping)
  step-Calms (expired other) c =
      unfold expire_job in ground (arith, p id, elem-delete_all id other e.active_jobs)

bytes_eq_sym : (xs ys : Bytes) → bytes_eq xs ys ≡ bytes_eq ys xs
bytes_eq_sym [] [] = refl
bytes_eq_sym [] (y ∷ ys) = refl
bytes_eq_sym (x ∷ xs) [] = refl
bytes_eq_sym (x ∷ xs) (y ∷ ys) = ground (arith, bytes_eq_sym xs ys)

check_idempotency-none :
    (provider : Uuid) (url : Bytes) (jobs : Uuid → ProcessingJob) (active : List Uuid) (id : Uuid)
    → check_idempotency provider url jobs active ≡ none
    → elem id active ≡ true
    → is_same_live provider url (jobs id) ≡ false
unfolding check_idempotency
check_idempotency-none provider url jobs [] id h m = cc
check_idempotency-none provider url jobs (x ∷ active) id h m =
    elim (Bool-cases (is_same_live provider url (jobs x))) [
      | inl hit ↦ ground (arith, hit, h)
      | inr miss ↦ elim (Bool-cases (x == id)) [
        | inl here ↦ ground (arith, here, miss)
        | inr later ↦
            check_idempotency-none provider url jobs active id (ground (arith, miss, h))
              (ground (arith, later, m))
      ]
    ]

-- `uuid.New` makes a UUID that the engine does not hold.
abbrev pub IsFresh : Uuid → ProcessingEngine → Type 0
IsFresh id e = (places id e ≡ 0) × (elem id e.active_jobs ≡ false)

-- What a submission does to a job, whether it is the new one or another.
record Enters (sub : Submission) (id : Uuid) (e e' : ProcessingEngine) : Type 0 where
  placed : places id e' ≤ live_count id e'
  fewer : is_live_at id e' ≡ true → sub.id == id ≡ false → is_live_at id e ≡ true
  provider : sub.id == id ≡ false → (e'.jobs id).provider_id ≡ (e.jobs id).provider_id
  file : sub.id == id ≡ false → (e'.jobs id).file_url ≡ (e.jobs id).file_url
  new_provider : (e'.jobs sub.id).provider_id ≡ sub.provider_id
  new_file : (e'.jobs sub.id).file_url ≡ sub.file_url

-- No live job of the engine has the provider and the file of the submission.
abbrev pub IsApart : Submission → ProcessingEngine → Type 0
IsApart sub e =
    (id : Uuid)
    → is_live_at id e ≡ true
    → (e.jobs id).provider_id == sub.provider_id && bytes_eq (e.jobs id).file_url sub.file_url
      ≡ false

module _ (sub : Submission) (e : ProcessingEngine) (p : IsPlaced e) (fresh : IsFresh sub.id e) where
  enter_job-Enters : (id : Uuid) → Enters sub id e (enter_job sub e).0
  unfolding enter_job
  enter_job-Enters id = elim (Bool-cases (sees_context sub e)) [
    | inl done ↦ simp done (
        ground (
          arith,
          p id,
          fresh,
          elem-delete_all id sub.id e.active_jobs,
          elem-delete_all id sub.id (delete_all sub.id e.active_jobs),
        ))
    | inr going ↦ elim (Bool-cases (has_room e)) [
      | inl room ↦ simp going (
          simp room (
            ground (
              arith,
              p id,
              fresh,
              elem-delete_all id sub.id e.active_jobs,
              count-append id sub.id e.file_queue,
            )))
      | inr full ↦ simp going (
          simp full (
            ground (
              arith,
              p id,
              fresh,
              elem-delete_all id sub.id e.active_jobs,
              elem-delete_all id sub.id (delete_all sub.id e.active_jobs),
            )))
    ]
  ]

  enter_job-IsPlaced : IsPlaced (enter_job sub e).0
  enter_job-IsPlaced id = (enter_job-Enters id).placed

  enter_job-IsUnique : IsApart sub e → IsUnique e → IsUnique (enter_job sub e).0
  enter_job-IsUnique apart u a b la lb same =
      let ea = enter_job-Enters a in
      let eb = enter_job-Enters b in
      elim (Bool-cases (sub.id == a)) [
        | inl a_new ↦ elim (Bool-cases (sub.id == b)) [
          | inl b_new ↦ ground (arith, a_new, b_new)
          | inr b_old ↦ ground (
            arith,
            a_new,
            same,
            eb.provider b_old,
            eb.file b_old,
            ea.new_provider,
            ea.new_file,
            apart b (eb.fewer lb b_old),
            bytes_eq_sym sub.file_url (e.jobs b).file_url,
          )
        ]
        | inr a_old ↦ elim (Bool-cases (sub.id == b)) [
          | inl b_new ↦ ground (
            arith,
            b_new,
            same,
            ea.provider a_old,
            ea.file a_old,
            eb.new_provider,
            eb.new_file,
            apart a (ea.fewer la a_old),
          )
          | inr b_old ↦
              u a b (ea.fewer la a_old) (eb.fewer lb b_old) (
                rw (← ea.provider a_old, ← ea.file a_old, ← eb.provider b_old, ← eb.file b_old)
                  same)
        ]
      ]

-- A check that finds nothing.
check_idempotency-IsApart :
    (sub : Submission) (e : ProcessingEngine)
    → check_idempotency sub.provider_id sub.file_url e.jobs e.active_jobs ≡ none
    → IsApart sub e
check_idempotency-IsApart sub e none_there id live =
    ground (
      arith,
      check_idempotency-none sub.provider_id sub.file_url e.jobs e.active_jobs id none_there,
    )

-- At most one call of `SubmitJob` has still to register its job, and that one may.
abbrev pub MayEnter : List Submission → ProcessingEngine → Type 0
MayEnter [] e = Unit {0}
MayEnter (sub ∷ []) e = IsFresh sub.id e × IsApart sub e
MayEnter (sub ∷ other ∷ subs) e = ⊥

-- A job is in one place at most, no two live ones are for one file, and the call that is entering may.
abbrev pub IsIdempotent : ProcessingEngine → Type 0
IsIdempotent e = IsPlaced e × IsUnique e × MayEnter e.entering e

module _ (event : Event) (e : ProcessingEngine) (p : IsPlaced e) (calm : is_calm event ≡ true) where
  calm_step : (id : Uuid) → Calms id e (step event e)
  calm_step id = step-Calms id e p event calm

  step_calm-MayEnter : (subs : List Submission) → MayEnter subs e → MayEnter subs (step event e)
  step_calm-MayEnter [] m = tt
  step_calm-MayEnter (sub ∷ []) ((nowhere, absent), apart) = (
    ((calm_step sub.id).nowhere nowhere, (calm_step sub.id).absent absent),
    λ id live. let c = calm_step id in rw (c.provider, c.file) (apart id (c.fewer live)),
  )
  step_calm-MayEnter (sub ∷ other ∷ subs) m = absurd m

  step_calm-IsIdempotent : IsUnique e → MayEnter e.entering e → IsIdempotent (step event e)
  step_calm-IsIdempotent u m = (
    λ id. (calm_step id).placed,
    λ a b la lb same.
        let ca = calm_step a in
        let cb = calm_step b in
        u a b (ca.fewer la) (cb.fewer lb)
          (rw (← ca.provider, ← ca.file, ← cb.provider, ← cb.file) same),
    subst (λ (subs : List Submission). MayEnter subs (step event e)) (sym (calm_step 0).entering)
        (step_calm-MayEnter e.entering m),
  )

-- No call is between its check and its registration.
abbrev pub IsAlone : Submission → ProcessingEngine → Type 0
IsAlone sub e = IsFresh sub.id e × (e.entering ≡ [])

enter_job-entering :
    (sub : Submission) (e : ProcessingEngine) → (enter_job sub e).0.entering ≡ e.entering
unfolding enter_job
enter_job-entering sub e = ground arith

enter_job-IsIdempotent :
    (sub : Submission) (e : ProcessingEngine)
    → IsAlone sub e
    → IsApart sub e
    → IsPlaced e
    → IsUnique e
    → IsIdempotent (enter_job sub e).0
enter_job-IsIdempotent sub e (fresh, alone) apart p u = (
  enter_job-IsPlaced sub e p fresh,
  enter_job-IsUnique sub e p fresh apart u,
  rw (enter_job-entering sub e, alone) tt,
)

submit_job-IsIdempotent :
    (sub : Submission) (e : ProcessingEngine)
    → IsAlone sub e
    → IsIdempotent e
    → IsIdempotent (submit_job sub e).0
submit_job-IsIdempotent sub e alone (p, u, m) = elim (submit_job-cases sub e) [
  | inl (r, same, refused) ↦ rw same (p, u, m)
  | inr entered ↦
      rw entered.1
        (enter_job-IsIdempotent sub e alone (check_idempotency-IsApart sub e entered.0) p u)
]

begin_submission-IsIdempotent :
    (sub : Submission) (e : ProcessingEngine)
    → IsAlone sub e
    → IsIdempotent e
    → IsIdempotent (begin_submission sub e)
unfolding begin_submission
begin_submission-IsIdempotent sub e (fresh, alone) (p, u, m) = elim (check_submission-cases sub e) [
  | inl (r, checked, early) ↦ rw checked (p, u, m)
  | inr (none_there, checked) ↦
      rw (checked, alone) (p, u, (fresh, check_idempotency-IsApart sub e none_there))
]

-- The call that enters is the only one.
MayEnter-pick :
    (n : ℕ) (subs : List Submission) (sub : Submission) (rest : List Submission)
    (e : ProcessingEngine)
    → MayEnter subs e
    → pick n subs ≡ some (sub, rest)
    → (rest ≡ []) × IsFresh sub.id e × IsApart sub e
MayEnter-pick n [] sub rest e m found = absurd (ground arith)
MayEnter-pick zero (x ∷ []) sub rest e m found =
    let value : Option (Submission × List Submission) → Submission × List Submission =
      λ o. elim o [ none ↦ (x, []) | some picked ↦ picked ] in
    subst (λ (q : Submission × List Submission). (q.1 ≡ []) × IsFresh q.0.id e × IsApart q.0 e)
      (ap value found) (refl, m.0, m.1)
MayEnter-pick (suc n) (x ∷ []) sub rest e m found = absurd (ground arith)
MayEnter-pick n (x ∷ y ∷ subs) sub rest e m found = absurd m

abbrev pub IsOrderly : Event → ProcessingEngine → Type 0
IsOrderly (cancels id now) e = ⊥
IsOrderly (submits sub) e = IsAlone sub e
IsOrderly (checks sub) e = IsAlone sub e
IsOrderly _ e = Unit {0}

-- The events of a schedule cancel no job, each submission's UUID is fresh, and no call of `SubmitJob` makes its
-- check while another has made its own and has still to register.
abbrev pub AreOrderly : List Event → ProcessingEngine → Type 0
AreOrderly [] e = Unit {0}
AreOrderly (event ∷ events) e = IsOrderly event e × AreOrderly events (step event e)

end_submission-IsIdempotent :
    (n : ℕ) (e : ProcessingEngine) → IsIdempotent e → IsIdempotent (end_submission n e).0
end_submission-IsIdempotent n e (p, u, m) = elim (end_submission-cases n e) [
  | inl same ↦ rw same (p, u, m)
  | inr (sub, rest, found, entered) ↦
      let (over, fresh, apart) = MayEnter-pick n e.entering sub rest e m found in
      rw entered (enter_job-IsIdempotent sub (record e { entering = rest }) (fresh, over) apart p u)
]

step-IsIdempotent :
    (event : Event) (e : ProcessingEngine)
    → IsOrderly event e
    → IsIdempotent e
    → IsIdempotent (step event e)
step-IsIdempotent (cancels id now) e o i = absurd o
step-IsIdempotent (submits sub) e o i = unfold step in submit_job-IsIdempotent sub e o i
step-IsIdempotent (checks sub) e o i = unfold step in begin_submission-IsIdempotent sub e o i
step-IsIdempotent (enters n) e o i = unfold step in end_submission-IsIdempotent n e i
step-IsIdempotent event e o (p, u, m) = step_calm-IsIdempotent event e p refl u m

-- In a schedule that cancels no job, whose submissions have fresh UUIDs, and in which no call of `SubmitJob` makes its
-- check while another has made its own and has still to register its job, it stays so that a job is in one
-- place at most, in none where its status is final, and that no two active jobs that are pending,
-- running or retrying have the same provider and file.
pub run-IsIdempotent :
    (events : List Event) (e : ProcessingEngine)
    → AreOrderly events e
    → IsIdempotent e
    → IsIdempotent (run events e)
unfolding run
run-IsIdempotent [] e o i = i
run-IsIdempotent (event ∷ events) e o i =
    run-IsIdempotent events (step event e) o.1 (step-IsIdempotent event e o.0 i)
