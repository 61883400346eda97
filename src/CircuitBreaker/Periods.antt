-- ===== src/CircuitBreaker/Periods.antt =====
-- The periods of a circuit breaker's life: how it opens, how long it stays open, how it closes again,
-- and when a half-open period does not end.
use hotel_reviews_microservi.Base.{
  ◌+◌, ◌^◌, ◌≤◌, ◌<◌, ◌≡◌, refl, ◌⊎◌, inl, inr, Bool, true, false, none, some, List, [], ◌∷◌, map,
  arith, length, All, Time,
}
use hotel_reviews_microservi.CircuitBreaker.Types.{
  state_closed, state_open, state_half_open, circuit_breaker,
}
use hotel_reviews_microservi.CircuitBreaker.Machine.{
  CircuitBreaker, can_execute, record_rejection, record_success, record_failure, record_fallback,
  perform_health_check, should_open,
}
use hotel_reviews_microservi.CircuitBreaker.Calls.{
  Call, admission, rejection, success, failure, fallback, health_check, step, run,
}
use hotel_reviews_microservi.CircuitBreaker.Invariant.{step-config}
use hotel_reviews_microservi.CircuitBreaker.Transitions.{
  is_forced, Transition, stay, trip, probe, recover, forced, step-Transition,
}

-- The call is not the operator's, and comes before the time.
abbrev pub IsBefore : Time → Time × Call → Type 0
IsBefore deadline (now, c) = (now < deadline) × (is_forced c ≡ false)

IsOpenUntil : Time → CircuitBreaker → Type 0
IsOpenUntil deadline cb =
    (cb.state ≡ state_open) × (cb.last_state_change + cb.config.open_timeout ≡ deadline)

step-IsOpenUntil :
    (deadline now : Time) (c : Call) (cb cb' : CircuitBreaker)
    → IsBefore deadline (now, c)
    → IsOpenUntil deadline cb
    → cb'.config ≡ cb.config
    → Transition now c cb cb'
    → IsOpenUntil deadline cb'
unfolding IsOpenUntil
step-IsOpenUntil deadline now c cb cb' b o e (stay s l) = ground arith
step-IsOpenUntil deadline now c cb cb' b o e (trip f n t s) = absurd (n o.0)
step-IsOpenUntil deadline now c cb cb' b o e (probe p s l h) = absurd (omega arith)
step-IsOpenUntil deadline now c cb cb' b o e (recover f s l h) = ground arith
step-IsOpenUntil deadline now c cb cb' b o e (forced f) = ground arith

run-IsOpenUntil :
    (deadline : Time) (cs : List (Time × Call)) (cb : CircuitBreaker)
    → All (IsBefore deadline) cs
    → IsOpenUntil deadline cb
    → IsOpenUntil deadline (run cs cb)
unfolding run
run-IsOpenUntil deadline [] cb b o = o
run-IsOpenUntil deadline ((now, c) ∷ cs) cb b o = run-IsOpenUntil deadline cs (step now c cb) b.1 (
    step-IsOpenUntil deadline now c cb (step now c cb) b.0 o (step-config now c cb)
      (step-Transition now c cb))

can_execute-IsOpenUntil :
    (deadline now : Time) (cb : CircuitBreaker)
    → now < deadline
    → IsOpenUntil deadline cb
    → can_execute now cb ≡ (cb, some (circuit_breaker state_open "circuit breaker is open"))
unfolding IsOpenUntil can_execute
can_execute-IsOpenUntil deadline now cb h o = ground arith

-- Until its open timeout is over an open breaker rejects every request, unchanged by the admission,
-- whatever calls but the operator's come before.
pub can_execute-open_period :
    (cb : CircuitBreaker) (cs : List (Time × Call)) (now : Time)
    → cb.state ≡ state_open
    → All (IsBefore (cb.last_state_change + cb.config.open_timeout)) cs
    → now < cb.last_state_change + cb.config.open_timeout
    → can_execute now (run cs cb)
      ≡ (run cs cb, some (circuit_breaker state_open "circuit breaker is open"))
unfolding IsOpenUntil
can_execute-open_period cb cs now o b h =
    can_execute-IsOpenUntil (cb.last_state_change + cb.config.open_timeout) now (run cs cb) h
      (run-IsOpenUntil (cb.last_state_change + cb.config.open_timeout) cs cb b (o, refl))

-- Reported failures, at the given times, with no call between them.
abbrev pub failures_at : List Time → List (Time × Call)
failures_at = map λ t. (t, failure)

abbrev pub successes_at : List Time → List (Time × Call)
successes_at = map λ t. (t, success)

record_failure_open :
    (now : Time) (cb : CircuitBreaker)
    → cb.state ≡ state_open
    → (record_failure now cb).state ≡ state_open
unfolding record_failure
record_failure_open now cb h = ground arith

run-failures_open :
    (ts : List Time) (cb : CircuitBreaker)
    → cb.state ≡ state_open
    → (run (failures_at ts) cb).state ≡ state_open
unfolding run step
run-failures_open [] cb h = h
run-failures_open (t ∷ ts) cb h =
    run-failures_open ts (record_failure t cb) (record_failure_open t cb h)

record_failure_count :
    (now : Time) (cb : CircuitBreaker)
    → cb.consecutive_failures + 1 < 2 ^ 32
    → ((record_failure now cb).config ≡ cb.config)
      × (((record_failure now cb).state ≡ state_open)
          ⊎ (((record_failure now cb).consecutive_failures ≡ cb.consecutive_failures + 1)
              × (cb.consecutive_failures + 1 < cb.config.consecutive_failures_limit)))
unfolding record_failure should_open
record_failure_count now cb h = ground arith

run-failures_below :
    (ts : List Time) (cb : CircuitBreaker)
    → (cb.state ≡ state_open) ⊎ (cb.consecutive_failures < cb.config.consecutive_failures_limit)
    → cb.config.consecutive_failures_limit ≤ cb.consecutive_failures + length ts
    → cb.consecutive_failures + length ts < 2 ^ 32
    → (run (failures_at ts) cb).state ≡ state_open
unfolding run step
run-failures_below [] cb (inl o) l w = o
run-failures_below [] cb (inr h) l w = absurd (omega arith)
run-failures_below (t ∷ ts) cb h l w =
    let cb' = record_failure t cb in
    let (kept, counted) = record_failure_count t cb (omega arith) in
    elim counted [
      | inl o ↦ run-failures_open ts cb' o
      | inr (n, below) ↦
          run-failures_below ts cb' (inr (rw (kept, n) below)) (rw (kept, n) (omega arith))
            (rw n (omega arith))
    ]

-- A run of reported failures opens the breaker, in whatever state it was, when it brings the failures
-- in a row to their limit, and leaves it open; the counter must not wrap.
pub run-failures :
    (t : Time) (ts : List Time) (cb : CircuitBreaker)
    → cb.config.consecutive_failures_limit ≤ cb.consecutive_failures + length (t ∷ ts)
    → cb.consecutive_failures + length (t ∷ ts) < 2 ^ 32
    → (run (failures_at (t ∷ ts)) cb).state ≡ state_open
unfolding run step
run-failures t ts cb l w =
    let cb' = record_failure t cb in
    let (kept, counted) = record_failure_count t cb (omega arith) in
    elim counted [
      | inl o ↦ run-failures_open ts cb' o
      | inr (n, below) ↦
          run-failures_below ts cb' (inr (rw (kept, n) below)) (rw (kept, n) (omega arith))
            (rw n (omega arith))
    ]

record_success_closed :
    (now : Time) (cb : CircuitBreaker)
    → cb.state ≡ state_closed
    → (record_success now cb).state ≡ state_closed
unfolding record_success
record_success_closed now cb h = ground arith

run-successes_closed :
    (ts : List Time) (cb : CircuitBreaker)
    → cb.state ≡ state_closed
    → (run (successes_at ts) cb).state ≡ state_closed
unfolding run step
run-successes_closed [] cb h = h
run-successes_closed (t ∷ ts) cb h =
    run-successes_closed ts (record_success t cb) (record_success_closed t cb h)

record_success_count :
    (now : Time) (cb : CircuitBreaker)
    → cb.state ≡ state_half_open
    → cb.consecutive_successes + 1 < 2 ^ 32
    → ((record_success now cb).config ≡ cb.config)
      × (((record_success now cb).state ≡ state_closed)
            × (cb.config.success_threshold ≤ cb.consecutive_successes + 1)
          ⊎ (((record_success now cb).state ≡ state_half_open)
              × ((record_success now cb).consecutive_successes ≡ cb.consecutive_successes + 1)
              × (cb.consecutive_successes + 1 < cb.config.success_threshold)))
unfolding record_success
record_success_count now cb h w = ground arith

-- A run of reported successes leaves a half-open breaker half-open while the successes in a row, those
-- from before the period included, stay under the threshold, and closes it when they reach it.
pub run-successes :
    (t : Time) (ts : List Time) (cb : CircuitBreaker)
    → cb.state ≡ state_half_open
    → cb.consecutive_successes + length (t ∷ ts) < 2 ^ 32
    → (cb.consecutive_successes + length (t ∷ ts) < cb.config.success_threshold
        → (run (successes_at (t ∷ ts)) cb).state ≡ state_half_open)
      × (cb.config.success_threshold ≤ cb.consecutive_successes + length (t ∷ ts)
          → (run (successes_at (t ∷ ts)) cb).state ≡ state_closed)
unfolding run step
run-successes t [] cb h w = ground (arith, record_success_count t cb h)
run-successes t (u ∷ ts) cb h w =
    let cb' = record_success t cb in
    let (kept, counted) = record_success_count t cb h (omega arith) in
    elim counted [
      | inl (c, l) ↦ ((λ g. absurd (omega arith)), λ g. run-successes_closed (u ∷ ts) cb' c)
      | inr (o, n, below) ↦
          let (wait, close) = run-successes u ts cb' o (rw n (omega arith)) in
          (λ g. wait (rw (kept, n) (omega arith)), λ g. close (rw (kept, n) (omega arith)))
    ]

-- Requests that arrive, and health checks: no result of a request that was admitted.
abbrev pub is_arrival : Call → Bool
is_arrival admission = true
is_arrival rejection = true
is_arrival (fallback failed) = true
is_arrival (health_check err) = true
is_arrival _ = false

abbrev pub IsArrival : Time × Call → Type 0
IsArrival (now, c) = is_arrival c ≡ true

-- Half-open, with every probe of the period admitted.
pub record IsExhausted (cb : CircuitBreaker) : Type 0 where
  pub half_open : cb.state ≡ state_half_open
  pub spent : cb.config.success_threshold ≤ cb.half_open_requests

can_execute-IsExhausted :
    (now : Time) (cb : CircuitBreaker)
    → IsExhausted cb
    → can_execute now cb
      ≡ (cb, some (circuit_breaker state_half_open "circuit breaker is half-open and at capacity"))
unfolding can_execute
can_execute-IsExhausted now cb x = ground arith

step-IsExhausted :
    (now : Time) (c : Call) (cb : CircuitBreaker)
    → is_arrival c ≡ true
    → IsExhausted cb
    → IsExhausted (step now c cb)
unfolding step
step-IsExhausted now admission cb a x = rw (step, can_execute-IsExhausted now cb x) x
step-IsExhausted now rejection cb a x = unfold record_rejection in ground arith
step-IsExhausted now (fallback failed) cb a x = unfold record_fallback in ground arith
step-IsExhausted now (health_check none) cb a x = unfold perform_health_check in ground arith
step-IsExhausted now (health_check (some e)) cb a x = unfold perform_health_check in ground arith
step-IsExhausted now _ cb a x = cc

run-IsExhausted :
    (cs : List (Time × Call)) (cb : CircuitBreaker)
    → All IsArrival cs
    → IsExhausted cb
    → IsExhausted (run cs cb)
unfolding run
run-IsExhausted [] cb a x = x
run-IsExhausted ((now, c) ∷ cs) cb a x =
    run-IsExhausted cs (step now c cb) a.1 (step-IsExhausted now c cb a.0 x)

-- A half-open period does not end by itself: once the probes of the period are all admitted, and as
-- long as no result of an admitted request is reported and no operator's call is made, every request
-- is rejected, however much time passes and whatever the health checks say.
pub can_execute-exhausted_period :
    (cb : CircuitBreaker) (cs : List (Time × Call)) (now : Time)
    → IsExhausted cb
    → All IsArrival cs
    → can_execute now (run cs cb) ≡ (
      run cs cb,
      some (circuit_breaker state_half_open "circuit breaker is half-open and at capacity"),
    )
can_execute-exhausted_period cb cs now x a =
    can_execute-IsExhausted now (run cs cb) (run-IsExhausted cs cb a x)
