-- ===== src/Retry/Examples.antt =====
-- The theorems on the retry manager of internal/infrastructure/retry.go at concrete inputs.
use hotel_reviews_microservi.Base.{
  ℕ, ◌+◌, ◌-◌, ◌*◌, ◌<◌, ◌≤◌, ◌≡◌, ◌≢◌, refl, false, none, some, [], ◌∷◌, Option, arith, second,
  millisecond, leb, if◌then◌else◌,
}
use hotel_reviews_microservi.CircuitBreaker.Types.{
  state_open, other, circuit_breaker, s3_config, new_metrics,
}
use hotel_reviews_microservi.CircuitBreaker.Window.{empty_bucket}
use hotel_reviews_microservi.CircuitBreaker.Machine.{CircuitBreaker}
use hotel_reviews_microservi.CircuitBreaker.Execute.{Outcome, ok, err}
use hotel_reviews_microservi.Retry.Types.{ErrorReader, decorrelated}
use hotel_reviews_microservi.Retry.Backoff.{
  Arithmetic, apply_jitter, random_duration, calculate_backoff, calculate_backoff-bounded,
}
use hotel_reviews_microservi.Retry.Metrics.{new_retry_metrics}
use hotel_reviews_microservi.Retry.Configs.{
  default_retry_config, cache_retry_config, kafka_retry_config,
}
use hotel_reviews_microservi.Retry.Loop.{RetryManager, Environment, execute_with_config}
use hotel_reviews_microservi.Retry.Loop.Breaker.{
  operates, ticks, IsBarred, after, execute_with_config-open_forever,
}
use hotel_reviews_microservi.Retry.Loop.Tally.{IsCounted}
use hotel_reviews_microservi.Retry.Loop.Counts.{execute_with_config-IsCounted}

-- Every error is a network error.
abbrev reader : ErrorReader
reader = record { net_error = λ e. some false; contains = λ e text. false }

-- Nothing can be drawn below 0.
abbrev least_draw : ℕ → Option ℕ
least_draw bound = if leb bound 0 then none else some 0

least_draw-small : (bound n : ℕ) → least_draw bound ≡ some n → n < bound
least_draw-small bound n h = ground arith

abbrev calc : Arithmetic
calc = record {
  exponential = λ config attempt. config.base_delay * attempt;
  linear = λ config attempt. config.base_delay * attempt;
  draw = λ attempt bound. least_draw bound;
}

-- The highest number is drawn.
abbrev highest : Arithmetic
highest = record calc { draw = λ attempt bound. some (bound - 1) }

-- The decorrelated jitter is not bounded by the maximum of 30 seconds.
kafka_waits_longer :
    (calculate_backoff highest 1 kafka_retry_config (30 * second)).0 ≡ 90 * second - 1
unfolding calculate_backoff apply_jitter random_duration
kafka_waits_longer = refl

abbrev breaker : CircuitBreaker
breaker = record {
  config = s3_config;
  state = state_open;
  window = record {
    buckets = empty_bucket 0 ∷ [];
    size = 60 * second;
    bucket_size = 60 * second;
    current_idx = 0;
  };
  metrics = new_metrics 0;
  last_state_change = 0;
  consecutive_failures = 3;
  consecutive_successes = 0;
  half_open_requests = 0;
}

abbrev manager : RetryManager
manager = record { metrics = new_retry_metrics; breaker = some breaker; last_backoff_time = 0 }

-- The function fails at first, long after the open timeout.
abbrev second_answer : ℕ → Outcome ℕ
second_answer n = if leb n 1 then err (other 1) else ok 7

abbrev hour : Environment ℕ
hour = record {
  done_before = λ n. none;
  answer = second_answer;
  duration = λ n. 10 * millisecond;
  answered = λ n. 3600 * second + n;
  done_waiting = λ n. none;
}

execute_with_config-open_forever_example :
    let rm' =
      after reader calc default_retry_config
        (operates hour ∷ ticks (3600 * second) none ∷ operates hour ∷ [])
        manager in
    let o = execute_with_config reader calc default_retry_config hour rm' in
    (o.outcome ≡ some (err (circuit_breaker state_open "circuit breaker is open")))
    × (o.calls ≡ 0)
    × IsBarred o.manager
execute_with_config-open_forever_example =
    execute_with_config-open_forever reader calc default_retry_config
      (operates hour ∷ ticks (3600 * second) none ∷ operates hour ∷ []) hour manager refl
      (breaker, refl, refl, refl) (omega arith) refl

execute_with_config-IsCounted_example :
    IsCounted 2 manager.metrics (execute_with_config reader calc cache_retry_config hour manager)
execute_with_config-IsCounted_example =
    execute_with_config-IsCounted reader calc cache_retry_config hour manager
      (omega arith, omega arith, omega arith, omega arith)

not_decorrelated : default_retry_config.jitter_type ≢ decorrelated
not_decorrelated e = absurd (ground arith)

calculate_backoff-bounded_example :
    (calculate_backoff calc 4 default_retry_config 0).0 ≤ default_retry_config.max_delay
calculate_backoff-bounded_example =
    calculate_backoff-bounded calc 4 default_retry_config 0 (λ attempt bound n h. ground (arith, h))
      (omega arith) not_decorrelated
