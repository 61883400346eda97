-- ===== src/CircuitBreaker/Types.antt =====
-- The data of internal/infrastructure/circuit_breaker.go: states, errors, configuration, metrics.
use hotel_reviews_microservi.Base.{
  ℕ, ◌*◌, ◌^◌, ◌-◌, Bool, true, false, Time, Duration, second, millisecond,
}
use Prim.Native.String.{String}

pub data CircuitState : Type 0 where
  state_closed state_open state_half_open : CircuitState

abbrev pub is_closed : CircuitState → Bool
is_closed state_closed = true
is_closed _ = false

abbrev pub is_open : CircuitState → Bool
is_open state_open = true
is_open _ = false

abbrev pub is_half_open : CircuitState → Bool
is_half_open state_half_open = true
is_half_open _ = false

pub circuit_state_string : CircuitState → String
circuit_state_string state_closed = "CLOSED"
circuit_state_string state_open = "OPEN"
circuit_state_string state_half_open = "HALF_OPEN"

-- An `error` value that is not nil. `other` stands for every error value that is neither a
-- `*CircuitBreakerError` nor one of the two sentinels of package context.
pub data Error : Type 0 where
  circuit_breaker : CircuitState → String → Error
  canceled deadline_exceeded : Error
  other : ℕ → Error

unfoldable pub is_circuit_breaker_error : Error → Bool
is_circuit_breaker_error (circuit_breaker state message) = true
is_circuit_breaker_error _ = false

pub record CircuitBreakerConfig : Type 0 where
  pub name : String
  pub failure_threshold : ℕ
  pub success_threshold : ℕ
  pub consecutive_failures_limit : ℕ
  pub minimum_request_count : ℕ
  pub request_timeout : Duration
  pub open_timeout : Duration
  pub half_open_timeout : Duration
  pub window_size : Duration
  pub window_buckets : ℕ
  pub max_retries : ℕ
  pub retry_delay : Duration
  pub retry_backoff_tenths : ℕ
  pub fail_fast : Bool
  pub enable_fallback : Bool
  pub enable_metrics : Bool
  pub enable_logging : Bool
  pub health_check_interval : Duration
  pub health_check_timeout : Duration
  pub enable_health_check : Bool

abbrev pub default_config : CircuitBreakerConfig
default_config = record {
  name = "default";
  failure_threshold = 5;
  success_threshold = 3;
  consecutive_failures_limit = 3;
  minimum_request_count = 10;
  request_timeout = 30 * second;
  open_timeout = 60 * second;
  half_open_timeout = 30 * second;
  window_size = 60 * second;
  window_buckets = 10;
  max_retries = 3;
  retry_delay = 1 * second;
  retry_backoff_tenths = 20;
  fail_fast = true;
  enable_fallback = true;
  enable_metrics = true;
  enable_logging = true;
  health_check_interval = 30 * second;
  health_check_timeout = 5 * second;
  enable_health_check = true;
}

abbrev pub s3_config : CircuitBreakerConfig
s3_config = record default_config { name = "s3"; enable_health_check = false }

abbrev pub database_config : CircuitBreakerConfig
database_config = record {
  name = "database";
  failure_threshold = 3;
  success_threshold = 2;
  consecutive_failures_limit = 2;
  minimum_request_count = 5;
  request_timeout = 10 * second;
  open_timeout = 30 * second;
  half_open_timeout = 15 * second;
  window_size = 30 * second;
  window_buckets = 6;
  max_retries = 2;
  retry_delay = 500 * millisecond;
  retry_backoff_tenths = 20;
  fail_fast = true;
  enable_fallback = true;
  enable_metrics = true;
  enable_logging = true;
  health_check_interval = 15 * second;
  health_check_timeout = 3 * second;
  enable_health_check = true;
}

abbrev pub cache_config : CircuitBreakerConfig
cache_config = record {
  name = "cache";
  failure_threshold = 10;
  success_threshold = 5;
  consecutive_failures_limit = 5;
  minimum_request_count = 20;
  request_timeout = 5 * second;
  open_timeout = 15 * second;
  half_open_timeout = 10 * second;
  window_size = 30 * second;
  window_buckets = 6;
  max_retries = 1;
  retry_delay = 100 * millisecond;
  retry_backoff_tenths = 15;
  fail_fast = false;
  enable_fallback = true;
  enable_metrics = true;
  enable_logging = true;
  health_check_interval = 10 * second;
  health_check_timeout = 2 * second;
  enable_health_check = true;
}

-- A rate in per cent, as the two numbers whose quotient the code takes in floating point.
pub record Rate : Type 0 where
  pub part : ℕ
  pub whole : ℕ

abbrev pub zero_rate : Rate
zero_rate = record { part = 0; whole = 1 }

pub record CircuitBreakerMetrics : Type 0 where
  pub total_requests : ℕ
  pub total_successes : ℕ
  pub total_failures : ℕ
  pub total_timeouts : ℕ
  pub total_rejections : ℕ
  pub state_transitions : ℕ
  pub times_opened : ℕ
  pub times_closed : ℕ
  pub times_half_opened : ℕ
  pub average_response_time : Duration
  pub max_response_time : Duration
  pub min_response_time : Duration
  pub current_state : CircuitState
  pub metrics_last_state_change : Time
  pub last_failure : Time
  pub last_success : Time
  pub success_rate : Rate
  pub failure_rate : Rate
  pub fallback_executions : ℕ
  pub fallback_successes : ℕ
  pub fallback_failures : ℕ

-- Go's `time.Duration(^uint64(0) >> 1)`.
abbrev pub max_duration : Duration
max_duration = 2 ^ 63 - 1

abbrev pub new_metrics : Time → CircuitBreakerMetrics
new_metrics now = record {
  total_requests = 0;
  total_successes = 0;
  total_failures = 0;
  total_timeouts = 0;
  total_rejections = 0;
  state_transitions = 0;
  times_opened = 0;
  times_closed = 0;
  times_half_opened = 0;
  average_response_time = 0;
  max_response_time = 0;
  min_response_time = max_duration;
  current_state = state_closed;
  metrics_last_state_change = now;
  last_failure = 0;
  last_success = 0;
  success_rate = zero_rate;
  failure_rate = zero_rate;
  fallback_executions = 0;
  fallback_successes = 0;
  fallback_failures = 0;
}
