-- ===== src/CircuitBreaker/Machine.antt =====
-- The operations of `CircuitBreaker` in internal/infrastructure/circuit_breaker.go, each a function
-- from the breaker before to the breaker after. The moments at which one operation reads the clock
-- are one time, `now`; logging is left out.
use hotel_reviews_microservi.Base.{
  ℕ, ◌+◌, ◌*◌, ◌/◌, Bool, true, false, ◌&&◌, ◌||◌, Option, none, some, ltb, leb, ◌==◌,
  if◌then◌else◌, u32, u64, Time, Duration,
}
use hotel_reviews_microservi.CircuitBreaker.Types.{
  CircuitState, state_closed, state_open, state_half_open, is_closed, is_open, is_half_open, Error,
  circuit_breaker, deadline_exceeded, CircuitBreakerConfig, CircuitBreakerMetrics, new_metrics,
  zero_rate,
}
use hotel_reviews_microservi.CircuitBreaker.Window.{
  SlidingWindow, new_sliding_window, record_request, get_stats,
}

pub record CircuitBreaker : Type 0 where
  pub config : CircuitBreakerConfig
  pub state : CircuitState
  pub window : SlidingWindow
  pub metrics : CircuitBreakerMetrics
  pub last_state_change : Time
  pub consecutive_failures : ℕ
  pub consecutive_successes : ℕ
  pub half_open_requests : ℕ

-- `none` is the panic of `NewSlidingWindow`.
unfoldable pub new_circuit_breaker : Time → CircuitBreakerConfig → Option CircuitBreaker
new_circuit_breaker now config =
    elim (new_sliding_window now config.window_size config.window_buckets) [
      | none ↦ none
      | some w ↦ some (record {
        config = config;
        state = state_closed;
        window = w;
        metrics = new_metrics now;
        last_state_change = now;
        consecutive_failures = 0;
        consecutive_successes = 0;
        half_open_requests = 0;
      })
    ]

unfoldable pub transition_to_open : Time → CircuitBreaker → CircuitBreaker
transition_to_open now cb =
    let m = cb.metrics in
    if is_open cb.state then cb else record cb {
      state = state_open;
      last_state_change = now;
      metrics = record m {
        current_state = state_open;
        metrics_last_state_change = now;
        state_transitions = u64 (m.state_transitions + 1);
        times_opened = u64 (m.times_opened + 1);
      };
    }

unfoldable pub transition_to_half_open : Time → CircuitBreaker → CircuitBreaker
transition_to_half_open now cb =
    let m = cb.metrics in
    if is_half_open cb.state then cb else record cb {
      state = state_half_open;
      half_open_requests = 0;
      last_state_change = now;
      metrics = record m {
        current_state = state_half_open;
        metrics_last_state_change = now;
        state_transitions = u64 (m.state_transitions + 1);
        times_half_opened = u64 (m.times_half_opened + 1);
      };
    }

unfoldable pub transition_to_closed : Time → CircuitBreaker → CircuitBreaker
transition_to_closed now cb =
    let m = cb.metrics in
    if is_closed cb.state then cb else record cb {
      state = state_closed;
      consecutive_failures = 0;
      consecutive_successes = 0;
      half_open_requests = 0;
      last_state_change = now;
      metrics = record m {
        current_state = state_closed;
        metrics_last_state_change = now;
        state_transitions = u64 (m.state_transitions + 1);
        times_closed = u64 (m.times_closed + 1);
      };
    }

unfoldable pub should_transition_to_half_open : Time → CircuitBreaker → Bool
should_transition_to_half_open now cb = leb (cb.last_state_change + cb.config.open_timeout) now

-- The test `failureRate > 50.0` of the code is on floating point numbers; it is
-- `requests < 2 * totalFailures` for fewer than 2^51 requests.
unfoldable pub should_open : Time → ℕ → CircuitBreaker → Bool
should_open now failure_count cb =
    let s = get_stats now cb.window in
    let total_failures = u64 (s.failures + s.timeouts) in
    if leb cb.config.consecutive_failures_limit failure_count
    then true
    else if ltb s.requests cb.config.minimum_request_count
    then false
    else leb cb.config.failure_threshold total_failures || ltb s.requests (2 * total_failures)

-- The switch of `canExecute` on the state; its default case is not reached.
can_execute_in : CircuitState → Time → CircuitBreaker → CircuitBreaker × Option Error
unfolding should_transition_to_half_open
can_execute_in state_closed now cb = (cb, none)
can_execute_in state_open now cb =
    if should_transition_to_half_open now cb
    then (transition_to_half_open now cb, none)
    else (cb, some (circuit_breaker state_open "circuit breaker is open"))
can_execute_in state_half_open now cb =
    if ltb cb.half_open_requests cb.config.success_threshold
    then (record cb { half_open_requests = u32 (cb.half_open_requests + 1) }, none)
    else (cb, some (circuit_breaker state_half_open "circuit breaker is half-open and at capacity"))

unfoldable pub can_execute : Time → CircuitBreaker → CircuitBreaker × Option Error
unfolding can_execute_in transition_to_half_open
can_execute now cb = can_execute_in cb.state now cb

unfoldable pub record_rejection : CircuitBreaker → CircuitBreaker
record_rejection cb =
    let m = cb.metrics in
    record cb { metrics = record m { total_rejections = u64 (m.total_rejections + 1) } }

-- What `recordSuccess` does before its test of the state.
count_success : Time → CircuitBreaker → CircuitBreaker
count_success now cb =
    let m = cb.metrics in
    record cb {
      metrics = record m { total_successes = u64 (m.total_successes + 1); last_success = now };
      consecutive_failures = 0;
      consecutive_successes = u32 (cb.consecutive_successes + 1);
    }

unfoldable pub record_success : Time → CircuitBreaker → CircuitBreaker
unfolding count_success transition_to_closed
record_success now cb =
    let c = count_success now cb in
    if is_half_open c.state && leb c.config.success_threshold c.consecutive_successes
    then transition_to_closed now c
    else c

-- What `recordFailure` does before its test of the state.
pub count_failure : Time → CircuitBreaker → CircuitBreaker
count_failure now cb =
    let m = cb.metrics in
    record cb {
      metrics = record m { total_failures = u64 (m.total_failures + 1); last_failure = now };
      consecutive_successes = 0;
      consecutive_failures = u32 (cb.consecutive_failures + 1);
    }

unfoldable pub record_failure : Time → CircuitBreaker → CircuitBreaker
unfolding count_failure transition_to_open
record_failure now cb =
    let c = count_failure now cb in
    if (is_closed c.state || is_half_open c.state) && should_open now c.consecutive_failures c
    then transition_to_open now c
    else c

-- The moving average of `updateMetrics`.
average_with : Duration → Duration → Duration
average_with average duration = if average == 0 then duration else (average + duration) / 2

-- The rates are set only when a request was counted, which fails once the counter wraps to 0.
unfoldable pub update_metrics : Bool → Duration → CircuitBreaker → CircuitBreaker
unfolding average_with
update_metrics timeout duration cb =
    let m = cb.metrics in
    let total = u64 (m.total_requests + 1) in
    let timed : CircuitBreakerMetrics = record m {
      total_requests = total;
      total_timeouts = if timeout then u64 (m.total_timeouts + 1) else m.total_timeouts;
      min_response_time =
          if ltb duration m.min_response_time then duration else m.min_response_time;
      max_response_time =
          if ltb m.max_response_time duration then duration else m.max_response_time;
      average_response_time = average_with m.average_response_time duration;
    } in
    record cb {
      metrics =
          if ltb 0 total
          then record timed {
            success_rate = record { part = m.total_successes; whole = total };
            failure_rate = record { part = m.total_failures; whole = total };
          }
          else timed;
    }

unfoldable pub is_timeout_error : Option Error → Bool
is_timeout_error (some deadline_exceeded) = true
is_timeout_error _ = false

abbrev pub is_success : Option Error → Bool
is_success none = true
is_success (some e) = false

-- `none` is a nil error, a success.
unfoldable pub record_result : Time → Option Error → Duration → CircuitBreaker → CircuitBreaker
record_result now err duration cb =
    let timeout = is_timeout_error err in
    let recorded = record cb { window = record_request now (is_success err) timeout cb.window } in
    let updated = update_metrics timeout duration recorded in
    if is_success err then record_success now updated else record_failure now updated

-- The counters of `executeFallback`, given whether the fallback failed.
unfoldable pub record_fallback : Bool → CircuitBreaker → CircuitBreaker
record_fallback failed cb =
    let m = cb.metrics in
    record cb {
      metrics = record m {
        fallback_executions = u64 (m.fallback_executions + 1);
        fallback_failures = if failed then u64 (m.fallback_failures + 1) else m.fallback_failures;
        fallback_successes =
            if failed then m.fallback_successes else u64 (m.fallback_successes + 1);
      };
    }

-- `performHealthCheck` with a health check set, given what the check returned.
unfoldable pub perform_health_check : Time → Option Error → CircuitBreaker → CircuitBreaker
perform_health_check now (some e) cb = if is_closed cb.state then record_failure now cb else cb
perform_health_check now none cb =
    if is_open cb.state && should_transition_to_half_open now cb
    then transition_to_half_open now cb
    else cb

-- `none` is the panic of `NewSlidingWindow`.
unfoldable pub reset : Time → CircuitBreaker → Option CircuitBreaker
reset now cb = elim (new_sliding_window now cb.config.window_size cb.config.window_buckets) [
  | none ↦ none
  | some w ↦ some (record cb {
    state = state_closed;
    consecutive_failures = 0;
    consecutive_successes = 0;
    half_open_requests = 0;
    last_state_change = now;
    metrics = new_metrics now;
    window = w;
  })
]

-- `GetMetrics`: a copy, whose rates are computed anew from its counters.
unfoldable pub get_metrics : CircuitBreaker → CircuitBreakerMetrics
get_metrics cb =
    let m = cb.metrics in
    if ltb 0 m.total_requests
    then record m {
      success_rate = record { part = m.total_successes; whole = m.total_requests };
      failure_rate = record { part = m.total_failures; whole = m.total_requests };
    }
    else record m { success_rate = zero_rate; failure_rate = zero_rate }
