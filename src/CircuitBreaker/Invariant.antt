-- ===== src/CircuitBreaker/Invariant.antt =====
-- What holds of a circuit breaker between two calls.
use hotel_reviews_microservi.Base.{
  ℕ, ◌+◌, ◌≤◌, ◌<◌, ◌≡◌, refl, ◌⊎◌, inl, inr, Bool, true, false, Option, none, some, List, [], ◌∷◌,
  arith, u64, Time, Duration, Option-cases,
}
use hotel_reviews_microservi.CircuitBreaker.Types.{state_closed, Error, CircuitBreakerConfig}
use hotel_reviews_microservi.CircuitBreaker.Window.{new_sliding_window, record_request}
use hotel_reviews_microservi.CircuitBreaker.Window.Laws.{
  IsValid, new-IsValid, record_request-IsValid,
}
use hotel_reviews_microservi.CircuitBreaker.Machine.{
  CircuitBreaker, new_circuit_breaker, can_execute, record_rejection, record_result, record_success,
  record_failure, record_fallback, perform_health_check, transition_to_open, update_metrics,
  transition_to_half_open, transition_to_closed, reset, should_open, count_failure,
  is_timeout_error,
}
use hotel_reviews_microservi.CircuitBreaker.Calls.{
  Call, admission, rejection, result, success, failure, fallback, health_check, force_open,
  force_closed, force_half_open, reset_call, step, run,
}

pub record Inv (cb : CircuitBreaker) : Type 0 where
  pub window_valid : IsValid cb.window
  pub state_reported : cb.metrics.current_state ≡ cb.state
  pub change_reported : cb.metrics.metrics_last_state_change ≡ cb.last_state_change
  pub transitions_counted :
      cb.metrics.state_transitions
      ≡ u64 (cb.metrics.times_opened + cb.metrics.times_closed + cb.metrics.times_half_opened)
  pub fallbacks_counted :
      cb.metrics.fallback_executions
      ≡ u64 (cb.metrics.fallback_successes + cb.metrics.fallback_failures)
  pub probes_bounded : cb.half_open_requests ≤ cb.config.success_threshold
  pub one_streak : (cb.consecutive_failures ≡ 0) ⊎ (cb.consecutive_successes ≡ 0)
  pub closed_below_limit :
      cb.state ≡ state_closed → cb.consecutive_failures < cb.config.consecutive_failures_limit

pub new-Inv :
    (now : Time) (config : CircuitBreakerConfig) {cb : CircuitBreaker}
    → 0 < config.consecutive_failures_limit
    → new_circuit_breaker now config ≡ some cb
    → Inv cb
unfolding new_circuit_breaker
new-Inv now config p h =
    elim (Option-cases (new_sliding_window now config.window_size config.window_buckets)) [
      | inl e ↦ ground (arith, e)
      | inr (w, e) ↦ ground (arith, e, new-IsValid now config.window_size config.window_buckets e)
    ]

pub should_open-false :
    (now : Time) (n : ℕ) (cb : CircuitBreaker)
    → should_open now n cb ≡ false
    → n < cb.config.consecutive_failures_limit
unfolding should_open
should_open-false now n cb h = ground arith

pub new-config :
    (now : Time) (config : CircuitBreakerConfig) {cb : CircuitBreaker}
    → new_circuit_breaker now config ≡ some cb
    → cb.config ≡ config
unfolding new_circuit_breaker
new-config now config h =
    elim (Option-cases (new_sliding_window now config.window_size config.window_buckets)) [
      | inl e ↦ ground (arith, e)
      | inr (w, e) ↦ ground (arith, e)
    ]

module _ (now : Time) (cb : CircuitBreaker) (v : Inv cb) where
  transition_to_open-Inv : Inv (transition_to_open now cb)
  unfolding transition_to_open
  transition_to_open-Inv = ground arith

  transition_to_half_open-Inv : Inv (transition_to_half_open now cb)
  unfolding transition_to_half_open
  transition_to_half_open-Inv = ground arith

  transition_to_closed-Inv :
      0 < cb.config.consecutive_failures_limit → Inv (transition_to_closed now cb)
  unfolding transition_to_closed
  transition_to_closed-Inv p = ground arith

  can_execute-Inv : Inv (can_execute now cb).0
  unfolding can_execute
  can_execute-Inv = ground arith

  record_success-Inv : 0 < cb.config.consecutive_failures_limit → Inv (record_success now cb)
  unfolding record_success
  record_success-Inv p = ground arith

  record_failure-Inv : 0 < cb.config.consecutive_failures_limit → Inv (record_failure now cb)
  unfolding record_failure
  record_failure-Inv p =
      let c = count_failure now cb in ground (arith, should_open-false now c.consecutive_failures c)

  record_rejection-Inv : Inv (record_rejection cb)
  unfolding record_rejection
  record_rejection-Inv = ground arith

  record_fallback-Inv : (failed : Bool) → Inv (record_fallback failed cb)
  unfolding record_fallback
  record_fallback-Inv true = ground arith
  record_fallback-Inv false = ground arith

  update_metrics-Inv : (t : Bool) (d : Duration) → Inv (update_metrics t d cb)
  unfolding update_metrics
  update_metrics-Inv t d = ground arith

  record_request-Inv : (s t : Bool) → Inv (record cb { window = record_request now s t cb.window })
  record_request-Inv s t = record {
    window_valid = record_request-IsValid now s t cb.window v.window_valid;
    state_reported = v.state_reported;
    change_reported = v.change_reported;
    transitions_counted = v.transitions_counted;
    fallbacks_counted = v.fallbacks_counted;
    probes_bounded = v.probes_bounded;
    one_streak = v.one_streak;
    closed_below_limit = v.closed_below_limit;
  }

  reset-Inv :
      {cb' : CircuitBreaker}
      → 0 < cb.config.consecutive_failures_limit
      → reset now cb ≡ some cb'
      → Inv cb'
  unfolding reset
  reset-Inv p h =
      elim (Option-cases (new_sliding_window now cb.config.window_size cb.config.window_buckets)) [
        | inl e ↦ ground (arith, e)
        | inr (w, e) ↦
            ground (arith, e, new-IsValid now cb.config.window_size cb.config.window_buckets e)
      ]

-- Every call keeps the configuration.
pub step-config : (now : Time) (c : Call) (cb : CircuitBreaker) → (step now c cb).config ≡ cb.config
unfolding step
step-config now admission cb = unfold can_execute in ground arith
step-config now rejection cb = unfold record_rejection in refl
step-config now (result none d) cb =
    unfold record_result record_success update_metrics in ground arith
step-config now (result (some e) d) cb =
    unfold record_result record_failure update_metrics in ground arith
step-config now success cb = unfold record_success in ground arith
step-config now failure cb = unfold record_failure in ground arith
step-config now (fallback failed) cb = unfold record_fallback in refl
step-config now (health_check none) cb =
    unfold perform_health_check transition_to_half_open in ground arith
step-config now (health_check (some e)) cb =
    unfold perform_health_check record_failure in ground arith
step-config now force_open cb = unfold transition_to_open in ground arith
step-config now force_closed cb = unfold transition_to_closed in ground arith
step-config now force_half_open cb = unfold transition_to_half_open in ground arith
step-config now reset_call cb = unfold reset in ground arith

record_result-Inv :
    (now : Time) (err : Option Error) (d : Duration) (cb : CircuitBreaker)
    → Inv cb
    → 0 < cb.config.consecutive_failures_limit
    → Inv (record_result now err d cb)
unfolding record_result is_timeout_error
record_result-Inv now none d cb v p =
    record_success-Inv now _
      (update_metrics-Inv now _ (record_request-Inv now cb v true false) false d)
      (unfold update_metrics in p)
record_result-Inv now (some e) d cb v p =
    record_failure-Inv now _
      (update_metrics-Inv now _ (record_request-Inv now cb v false (is_timeout_error (some e)))
        (is_timeout_error (some e)) d)
      (unfold update_metrics in p)

-- Every call keeps the invariant of a breaker that opens after some number of consecutive failures.
pub step-Inv :
    (now : Time) (c : Call) (cb : CircuitBreaker)
    → 0 < cb.config.consecutive_failures_limit
    → Inv cb
    → Inv (step now c cb)
unfolding step
step-Inv now admission cb p v = can_execute-Inv now cb v
step-Inv now rejection cb p v = record_rejection-Inv now cb v
step-Inv now (result err d) cb p v = record_result-Inv now err d cb v p
step-Inv now success cb p v = record_success-Inv now cb v p
step-Inv now failure cb p v = record_failure-Inv now cb v p
step-Inv now (fallback failed) cb p v = record_fallback-Inv now cb v failed
step-Inv now (health_check none) cb p v =
    unfold perform_health_check in ground (arith, transition_to_half_open-Inv now cb v)
step-Inv now (health_check (some e)) cb p v =
    unfold perform_health_check in ground (arith, record_failure-Inv now cb v p)
step-Inv now force_open cb p v = transition_to_open-Inv now cb v
step-Inv now force_closed cb p v = transition_to_closed-Inv now cb v p
step-Inv now force_half_open cb p v = transition_to_half_open-Inv now cb v
step-Inv now reset_call cb p v = elim (Option-cases (reset now cb)) [
  | inl e ↦ rw e v
  | inr (cb', e) ↦ rw e (reset-Inv now cb v p e)
]

pub run-Inv :
    (cs : List (Time × Call)) (cb : CircuitBreaker)
    → 0 < cb.config.consecutive_failures_limit
    → Inv cb
    → Inv (run cs cb)
unfolding run
run-Inv [] cb p v = v
run-Inv ((now, c) ∷ cs) cb p v =
    run-Inv cs (step now c cb) (rw (step-config now c cb) p) (step-Inv now c cb p v)

-- After any sequence of calls, at any times, on a new breaker that opens after at least one
-- consecutive failure: the window is well formed, the metrics report the state and the time of its
-- last change, they count every transition by its kind and every fallback by its outcome, at most
-- as many half-open requests as the success threshold are counted (the admission that ends the open state, which is one
-- more, is not counted), not both streaks are
-- positive, and a closed breaker has seen fewer consecutive failures than its limit.
pub run-new-Inv :
    (now : Time) (config : CircuitBreakerConfig) (cs : List (Time × Call)) {cb : CircuitBreaker}
    → 0 < config.consecutive_failures_limit
    → new_circuit_breaker now config ≡ some cb
    → Inv (run cs cb)
run-new-Inv now config cs {cb} p h =
    run-Inv cs cb (rw (new-config now config h) p) (new-Inv now config p h)
