-- ===== src/Retry/Configs.antt =====
-- The configurations that internal/infrastructure/retry.go provides.
use hotel_reviews_microservi.Base.{◌*◌, true, false, none, [], ◌∷◌, second, millisecond}
use hotel_reviews_microservi.Errors.{network, timeout, external, validation, client, rate_limit}
use hotel_reviews_microservi.Retry.Types.{
  RetryConfig, exponential_backoff, fixed_delay, full, equal, no_jitter, decorrelated,
}

abbrev pub default_retry_config : RetryConfig
default_retry_config = record {
  max_attempts = 3;
  base_delay = 100 * millisecond;
  max_delay = 30 * second;
  strategy = exponential_backoff;
  jitter_type = full;
  enable_circuit_breaker = true;
  retryable_errors = network ∷ timeout ∷ external ∷ [];
  permanent_errors = validation ∷ client ∷ [];
  custom_conditions = [];
  enable_dead_letter = true;
  has_dead_letter_handler = false;
  custom_backoff = none;
  operation_key = "default:unknown";
}

abbrev pub database_retry_config : RetryConfig
database_retry_config = record default_retry_config {
  max_delay = 5 * second;
  retryable_errors = network ∷ timeout ∷ [];
  operation_key = "database:query";
}

abbrev pub http_retry_config : RetryConfig
http_retry_config = record default_retry_config {
  max_attempts = 5;
  base_delay = 200 * millisecond;
  max_delay = 10 * second;
  jitter_type = equal;
  retryable_errors = network ∷ timeout ∷ external ∷ rate_limit ∷ [];
  operation_key = "http:request";
}

abbrev pub s3_retry_config : RetryConfig
s3_retry_config = record default_retry_config {
  max_attempts = 4;
  base_delay = 500 * millisecond;
  retryable_errors = network ∷ timeout ∷ external ∷ rate_limit ∷ [];
  operation_key = "s3:upload";
}

abbrev pub cache_retry_config : RetryConfig
cache_retry_config = record default_retry_config {
  max_attempts = 2;
  base_delay = 50 * millisecond;
  max_delay = 1 * second;
  strategy = fixed_delay;
  jitter_type = no_jitter;
  enable_circuit_breaker = false;
  retryable_errors = network ∷ timeout ∷ [];
  enable_dead_letter = false;
  operation_key = "cache:get";
}

abbrev pub kafka_retry_config : RetryConfig
kafka_retry_config = record default_retry_config {
  max_attempts = 5;
  base_delay = 1 * second;
  jitter_type = decorrelated;
  operation_key = "kafka:produce";
}
