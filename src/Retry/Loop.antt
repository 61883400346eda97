-- ===== src/Retry/Loop.antt =====
-- `ExecuteWithConfig` and `executeWithRetry` of internal/infrastructure/retry.go.
pub mod Tally
pub mod Counts
pub mod Breaker
use hotel_reviews_microservi.Base.{
  ℕ, zero, suc, ◌+◌, Bool, true, false, ◌&&◌, Option, none, some, List, [], ◌∷◌, if◌then◌else◌, ltb,
  Time, Duration, u64,
}
use hotel_reviews_microservi.CircuitBreaker.Types.{Error, state_open, is_open, circuit_breaker}
use hotel_reviews_microservi.CircuitBreaker.Machine.{
  CircuitBreaker, record_rejection, record_success, record_failure,
}
use hotel_reviews_microservi.CircuitBreaker.Execute.{Outcome, ok, err}
use hotel_reviews_microservi.Retry.Types.{RetryConfig, ErrorReader, is_retryable}
use hotel_reviews_microservi.Retry.Backoff.{Arithmetic, calculate_backoff}
use hotel_reviews_microservi.Retry.Metrics.{
  RetryMetrics, record_attempt, record_retry, record_circuit_breaker_reject, update_retry_metrics,
}

-- The circuit breaker may be nil.
pub record RetryManager : Type 0 where
  pub metrics : RetryMetrics
  pub breaker : Option CircuitBreaker
  pub last_backoff_time : Duration

-- For each attempt, numbered from 1: the context's error before it and while waiting after it, if it is done
-- by then, what the function answers, how long it takes and when it has answered.
pub record Environment (A : Type 0) : Type 0 where
  pub done_before : ℕ → Option Error
  pub answer : ℕ → Outcome A
  pub duration : ℕ → Duration
  pub answered : ℕ → Time
  pub done_waiting : ℕ → Option Error

-- What an operation gives: the result, `none` where the function was never called and there is no
-- error either; the last backoff of the `RetryContext`; and how often the function was called.
pub record Operation (A : Type 0) : Type 0 where
  pub manager : RetryManager
  pub outcome : Option (Outcome A)
  pub backoff : Duration
  pub calls : ℕ

-- The circuit breaker is used where it is enabled and not nil.
abbrev pub used_breaker : RetryConfig → RetryManager → Option CircuitBreaker
used_breaker config rm = if config.enable_circuit_breaker then rm.breaker else none

abbrev pub on_breaker :
    (CircuitBreaker → CircuitBreaker) → RetryConfig → RetryManager → RetryManager
on_breaker f config rm = elim (used_breaker config rm) [
  | none ↦ rm
  | some cb ↦ record rm { breaker = some (f cb) }
]

-- `checkCircuitBreaker`.
unfoldable pub check_circuit_breaker : Option CircuitBreaker → Option Error
check_circuit_breaker none = none
check_circuit_breaker (some cb) =
    if is_open cb.state then some (circuit_breaker state_open "circuit breaker is open") else none

-- The context's error while waiting, if there is a delay to wait for.
abbrev pub interrupted : Duration → Option Error → Option Error
interrupted delay done = if ltb 0 delay then done else none

unfoldable pub reject : RetryConfig → RetryManager → RetryManager
reject config rm =
    on_breaker record_rejection config
      (record rm { metrics = record_circuit_breaker_reject rm.metrics })

abbrev pub has_error : {A : Type 0} → Option (Outcome A) → Bool
has_error none = false
has_error (some (ok a)) = false
has_error (some (err e)) = true

-- The handler of dead letters is the caller's.
abbrev pub count_dead_letter : Bool → RetryMetrics → RetryMetrics
count_dead_letter true m = record m { dead_letter_count = u64 (m.dead_letter_count + 1) }
count_dead_letter false m = m

module _ (reader : ErrorReader) (calc : Arithmetic) (config : RetryConfig) {A : Type 0}
    (env : Environment A) where
  -- The state after the attempt's answer.
  unfoldable pub succeed : ℕ → RetryManager → RetryManager
  succeed attempt rm =
      let now = env.answered attempt in
      on_breaker (record_success now) config (record rm {
        metrics = record_attempt now config attempt reader (env.duration attempt) none rm.metrics;
      })

  unfoldable pub fail : ℕ → Error → RetryManager → RetryManager
  fail attempt e rm =
      let now = env.answered attempt in
      on_breaker (record_failure now) config (record rm {
        metrics =
            record_attempt now config attempt reader (env.duration attempt) (some e) rm.metrics;
      })

  -- A retry is counted and its delay is drawn.
  unfoldable pub prepare_retry : ℕ → Error → RetryManager → RetryManager × Duration
  prepare_retry attempt e rm =
      let (delay, last) = calculate_backoff calc attempt config rm.last_backoff_time in
      (
        record rm {
          metrics = record_retry (env.answered attempt) config attempt reader e rm.metrics;
          last_backoff_time = last;
        },
        delay,
      )

  abbrev stop : RetryManager → Outcome A → Duration → ℕ → Operation A
  stop rm o backoff calls = record {
    manager = rm;
    outcome = some o;
    backoff = backoff;
    calls = calls;
  }

  abbrev called : Operation A → Operation A
  called o = record o { calls = suc o.calls }

  -- The attempt has failed; `more` attempts may follow, and `rest` is the loop from the next one on.
  abbrev pub after_error :
      ℕ → ℕ → Error → Duration → RetryManager → RetryManager → Duration → Operation A → Operation A
  after_error zero attempt e backoff failed retried delay rest = stop failed (err e) backoff 1
  after_error (suc more) attempt e backoff failed retried delay rest =
      if is_retryable reader e attempt config
      then elim (interrupted delay (env.done_waiting attempt)) [
        | some done ↦ stop retried (err done) delay 1
        | none ↦ called rest
      ]
      else stop failed (err e) backoff 1

  unfoldable pub retry_loop : ℕ → ℕ → Duration → RetryManager → Operation A
  retry_loop zero attempt backoff rm = record {
    manager = rm;
    outcome = none;
    backoff = backoff;
    calls = 0;
  }
  retry_loop (suc more) attempt backoff rm = elim (env.done_before attempt) [
    | some done ↦ stop rm (err done) backoff 0
    | none ↦ elim (check_circuit_breaker (used_breaker config rm)) [
      | some e ↦ stop (reject config rm) (err e) backoff 0
      | none ↦ elim (env.answer attempt) [
        | ok a ↦ stop (succeed attempt rm) (ok a) backoff 1
        | err e ↦
            let failed = fail attempt e rm in
            let (retried, delay) = prepare_retry attempt e failed in
            let rest = retry_loop more (attempt + 1) delay retried in
            after_error more attempt e backoff failed retried delay rest
      ]
    ]
  ]

  unfoldable pub execute_with_config : RetryManager → Operation A
  execute_with_config rm =
      let o = retry_loop config.max_attempts 1 0 rm in
      let dead =
        has_error o.outcome && config.enable_dead_letter && config.has_dead_letter_handler in
      let rm' = o.manager in
      record o {
        manager = record rm' {
          metrics = count_dead_letter dead (update_retry_metrics o.backoff rm'.metrics);
        };
      }
