-- ===== src/Retry/Metrics.antt =====
-- The metrics of internal/infrastructure/retry.go. The fields that no code updates are left out.
use Prim.Native.String.{String}
use hotel_reviews_microservi.Base.{
  ℕ, ◌+◌, ◌-◌, ◌*◌, ◌/◌, ◌^◌, Bool, true, false, ◌||◌, not, Option, none, some, List, [],
  if◌then◌else◌, ltb, ◌==◌, Time, Duration, u64,
}
use hotel_reviews_microservi.Base.Maps.{get, put}
use hotel_reviews_microservi.Errors.{ErrorType, ErrorType-discrete}
use hotel_reviews_microservi.CircuitBreaker.Types.{Error, Rate}
use hotel_reviews_microservi.Retry.Types.{RetryConfig, ErrorReader, classify_error, is_retryable}

pub record OperationMetrics : Type 0 where
  pub op_attempts : ℕ
  pub op_operations : ℕ
  pub op_successful : ℕ
  pub op_failed : ℕ
  pub op_retries : ℕ
  pub average_duration : Duration
  pub success_rate : Rate
  pub last_attempt_time : Time

-- The two maps of retries are functions, 0 for a missing key; a rate is the pair that is divided.
pub record RetryMetrics : Type 0 where
  pub total_attempts : ℕ
  pub total_operations : ℕ
  pub successful_operations : ℕ
  pub failed_operations : ℕ
  pub total_retries : ℕ
  pub retries_by_error_type : ErrorType → ℕ
  pub retries_by_attempt : ℕ → ℕ
  pub total_backoff_time : Duration
  pub average_backoff_time : Duration
  pub max_backoff_time : Duration
  pub min_backoff_time : Duration
  pub dead_letter_count : ℕ
  pub circuit_breaker_rejects : ℕ
  pub last_success_time : Time
  pub last_failure_time : Time
  pub average_retries_per_operation : Rate
  pub operation_metrics : List (String × OperationMetrics)

abbrev pub new_retry_metrics : RetryMetrics
new_retry_metrics = record {
  total_attempts = 0;
  total_operations = 0;
  successful_operations = 0;
  failed_operations = 0;
  total_retries = 0;
  retries_by_error_type = λ t. 0;
  retries_by_attempt = λ n. 0;
  total_backoff_time = 0;
  average_backoff_time = 0;
  max_backoff_time = 0;
  min_backoff_time = 2 ^ 63 - 1;
  dead_letter_count = 0;
  circuit_breaker_rejects = 0;
  last_success_time = 0;
  last_failure_time = 0;
  average_retries_per_operation = record { part = 0; whole = 0 };
  operation_metrics = [];
}

abbrev new_operation_metrics : OperationMetrics
new_operation_metrics = record {
  op_attempts = 0;
  op_operations = 0;
  op_successful = 0;
  op_failed = 0;
  op_retries = 0;
  average_duration = 0;
  success_rate = record { part = 0; whole = 0 };
  last_attempt_time = 0;
}

abbrev or_new : Option OperationMetrics → OperationMetrics
or_new none = new_operation_metrics
or_new (some o) = o

abbrev pub is_failed : Option Error → Bool
is_failed none = false
is_failed (some e) = true

-- One more, if the test holds.
abbrev pub count_if : Bool → ℕ → ℕ
count_if b n = if b then u64 (n + 1) else n

module _ (now : Time) (config : RetryConfig) (attempt : ℕ) where
  unfoldable pub count_operation : Duration → Option Error → OperationMetrics → OperationMetrics
  count_operation duration err o =
      let operations = count_if (attempt == 1) o.op_operations in
      let successful = count_if (not (is_failed err)) o.op_successful in
      record {
        op_attempts = u64 (o.op_attempts + 1);
        op_operations = operations;
        op_successful = successful;
        op_failed =
            if is_failed err
            then count_if (attempt == config.max_attempts) o.op_failed
            else o.op_failed;
        op_retries = count_if (ltb 1 attempt) o.op_retries;
        average_duration =
            if ltb 0 operations
            then (o.average_duration * (operations - 1) + duration) / operations
            else o.average_duration;
        success_rate =
            if ltb 0 operations
            then record { part = successful; whole = operations }
            else o.success_rate;
        last_attempt_time = now;
      }

  unfoldable pub update_operation_metrics : Duration → Option Error → RetryMetrics → RetryMetrics
  update_operation_metrics duration err m =
      let o =
        count_operation duration err (or_new (get config.operation_key m.operation_metrics)) in
      record m { operation_metrics = put config.operation_key o m.operation_metrics }

  module _ (reader : ErrorReader) where
    -- Whether the attempt is the last one: it failed, and no other one is made.
    abbrev pub is_final : Option Error → Bool
    is_final none = false
    is_final (some e) = attempt == config.max_attempts || not (is_retryable reader e attempt config)

    unfoldable pub record_attempt : Duration → Option Error → RetryMetrics → RetryMetrics
    record_attempt duration err m = update_operation_metrics duration err (record m {
      total_attempts = u64 (m.total_attempts + 1);
      total_operations = count_if (attempt == 1) m.total_operations;
      successful_operations = count_if (not (is_failed err)) m.successful_operations;
      failed_operations = count_if (is_final err) m.failed_operations;
      last_success_time = if is_failed err then m.last_success_time else now;
      last_failure_time = if is_failed err then now else m.last_failure_time;
    })

    unfoldable pub record_retry : Error → RetryMetrics → RetryMetrics
    record_retry e m = record m {
      total_retries = u64 (m.total_retries + 1);
      retries_by_error_type = λ t. elim (ErrorType-discrete t (classify_error reader e)) [
        | yes h ↦ u64 (m.retries_by_error_type t + 1)
        | no n ↦ m.retries_by_error_type t
      ];
      retries_by_attempt = λ n. count_if (n == attempt + 1) (m.retries_by_attempt n);
    }

unfoldable pub record_circuit_breaker_reject : RetryMetrics → RetryMetrics
record_circuit_breaker_reject m = record m {
  circuit_breaker_rejects = u64 (m.circuit_breaker_rejects + 1);
}

-- `updateMetrics`, given the last delay of the operation.
unfoldable pub update_retry_metrics : Duration → RetryMetrics → RetryMetrics
update_retry_metrics backoff m =
    let total = if ltb 0 backoff then m.total_backoff_time + backoff else m.total_backoff_time in
    record m {
      average_retries_per_operation =
          if ltb 0 m.total_operations
          then record { part = m.total_retries; whole = m.total_operations }
          else m.average_retries_per_operation;
      total_backoff_time = total;
      max_backoff_time = if ltb m.max_backoff_time backoff then backoff else m.max_backoff_time;
      min_backoff_time =
          if ltb 0 backoff
          then (if ltb backoff m.min_backoff_time then backoff else m.min_backoff_time)
          else m.min_backoff_time;
      average_backoff_time =
          if ltb 0 backoff
          then (if ltb 0 m.total_retries then total / m.total_retries else m.average_backoff_time)
          else m.average_backoff_time;
    }
