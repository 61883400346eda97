-- ===== src/Retry/Loop/Tally.antt =====
-- What one step of the retry manager of internal/infrastructure/retry.go counts.
use hotel_reviews_microservi.Base.{
  ℕ, ◌⊎◌, ◌+◌, ◌^◌, ◌≤◌, ◌<◌, ◌≡◌, refl, ◌∙◌, inl, inr, ◌||◌, not, Option, Option-cases, none, some,
  if◌then◌else◌, ◌==◌, arith, u64,
}
use hotel_reviews_microservi.CircuitBreaker.Types.{Error}
use hotel_reviews_microservi.CircuitBreaker.Machine.{CircuitBreaker}
use hotel_reviews_microservi.CircuitBreaker.Execute.{Outcome, ok, err}
use hotel_reviews_microservi.Retry.Types.{RetryConfig, ErrorReader, is_retryable}
use hotel_reviews_microservi.Retry.Backoff.{Arithmetic}
use hotel_reviews_microservi.Retry.Metrics.{
  RetryMetrics, record_attempt, record_retry, update_operation_metrics,
}
use hotel_reviews_microservi.Retry.Loop.{
  RetryManager, Environment, Operation, on_breaker, used_breaker, succeed, fail, prepare_retry,
}

-- No counter wraps, where at most `n` more attempts are counted.
abbrev pub HasRoom : ℕ → RetryMetrics → Type 0
HasRoom n m =
    (m.total_attempts + n < 2 ^ 64)
    × (m.total_retries + n < 2 ^ 64)
    × (m.successful_operations + 1 < 2 ^ 64)
    × (m.failed_operations + 1 < 2 ^ 64)

abbrev pub SucceedsAs : {A : Type 0} → Option (Outcome A) → RetryMetrics → RetryMetrics → Type 0
SucceedsAs (some (ok a)) m m' =
    (m'.successful_operations ≡ m.successful_operations + 1)
    × (m'.failed_operations ≡ m.failed_operations)
SucceedsAs _ m m' =
    (m'.successful_operations ≡ m.successful_operations)
    × (m.failed_operations ≤ m'.failed_operations)
    × (m'.failed_operations ≤ m.failed_operations + 1)

-- The counts of an operation that may call the function `n` times, from the given metrics on. Each call is counted
-- as one of a success, a final failure and a retry.
pub record IsCounted {A : Type 0} (n : ℕ) (m : RetryMetrics) (o : Operation A) : Type 0 where
  pub few : o.calls ≤ n
  pub attempts : o.manager.metrics.total_attempts ≡ m.total_attempts + o.calls
  pub retries_least : m.total_retries + o.calls ≤ o.manager.metrics.total_retries + 1
  pub retries_most : o.manager.metrics.total_retries ≤ m.total_retries + o.calls
  pub accounted :
      o.manager.metrics.successful_operations + o.manager.metrics.failed_operations
        + o.manager.metrics.total_retries
      ≡ m.successful_operations + m.failed_operations + m.total_retries + o.calls
  pub settled : SucceedsAs o.outcome m o.manager.metrics

pub Outcome-cases :
    {A : Type 0} (o : Outcome A) → ((a : A) × (o ≡ ok a)) ⊎ ((e : Error) × (o ≡ err e))
Outcome-cases (ok a) = inl (a, refl)
Outcome-cases (err e) = inr (e, refl)

pub on_breaker-metrics :
    (f : CircuitBreaker → CircuitBreaker) (config : RetryConfig) (rm : RetryManager)
    → (on_breaker f config rm).metrics ≡ rm.metrics
on_breaker-metrics f config rm = elim (Option-cases (used_breaker config rm)) [
  | inl e ↦ simp (on_breaker, e)
  | inr (cb, e) ↦ simp (on_breaker, e)
]

module _ (reader : ErrorReader) (calc : Arithmetic) (config : RetryConfig) {A : Type 0}
    (env : Environment A) where
  -- The counters that the counts are about, after a success, a failure and a retry.
  pub succeed-counts :
      (attempt : ℕ) (rm : RetryManager)
      → let m = (succeed reader calc config env attempt rm).metrics in
        (m.total_attempts ≡ u64 (rm.metrics.total_attempts + 1))
        × (m.total_retries ≡ rm.metrics.total_retries)
        × (m.successful_operations ≡ u64 (rm.metrics.successful_operations + 1))
        × (m.failed_operations ≡ rm.metrics.failed_operations)
  unfolding succeed record_attempt update_operation_metrics
  succeed-counts attempt rm = rw (on_breaker-metrics _ config _) (refl, refl, refl, refl)

  pub fail-counts :
      (attempt : ℕ) (e : Error) (rm : RetryManager)
      → let m = (fail reader calc config env attempt e rm).metrics in
        let last = attempt == config.max_attempts || not (is_retryable reader e attempt config) in
        (m.total_attempts ≡ u64 (rm.metrics.total_attempts + 1))
        × (m.total_retries ≡ rm.metrics.total_retries)
        × (m.successful_operations ≡ rm.metrics.successful_operations)
        × (m.failed_operations ≡ (
            if last then u64 (rm.metrics.failed_operations + 1) else rm.metrics.failed_operations))
  unfolding fail record_attempt update_operation_metrics
  fail-counts attempt e rm = rw (on_breaker-metrics _ config _) (refl, refl, refl, refl)

  pub retry-counts :
      (attempt : ℕ) (e : Error) (rm : RetryManager)
      → let m = (prepare_retry reader calc config env attempt e rm).0.metrics in
        (m.total_attempts ≡ rm.metrics.total_attempts)
        × (m.total_retries ≡ u64 (rm.metrics.total_retries + 1))
        × (m.successful_operations ≡ rm.metrics.successful_operations)
        × (m.failed_operations ≡ rm.metrics.failed_operations)
  unfolding prepare_retry record_retry
  retry-counts attempt e rm = (refl, refl, refl, refl)

-- The metrics `m'` count what the metrics `m` count, and `n` calls and `k` retries more, which did not end
-- an operation.
abbrev pub Continues : ℕ → ℕ → RetryMetrics → RetryMetrics → Type 0
Continues n k m m' =
    (m'.total_attempts ≡ m.total_attempts + n)
    × (m'.total_retries ≡ m.total_retries + k)
    × (m'.successful_operations ≡ m.successful_operations)
    × (m'.failed_operations ≡ m.failed_operations)

pub SucceedsAs-from :
    {A : Type 0} (o : Option (Outcome A)) (m m' end : RetryMetrics)
    → m'.successful_operations ≡ m.successful_operations
    → m'.failed_operations ≡ m.failed_operations
    → SucceedsAs o m' end
    → SucceedsAs o m end
SucceedsAs-from none m m' end s f (a, b, c) = (a ∙ s, omega arith, omega arith)
SucceedsAs-from (some (ok x)) m m' end s f (a, b) = (omega arith, b ∙ f)
SucceedsAs-from (some (err e)) m m' end s f (a, b, c) = (a ∙ s, omega arith, omega arith)

pub SucceedsAs-to :
    {A : Type 0} (o : Option (Outcome A)) (m end end' : RetryMetrics)
    → end'.successful_operations ≡ end.successful_operations
    → end'.failed_operations ≡ end.failed_operations
    → SucceedsAs o m end
    → SucceedsAs o m end'
SucceedsAs-to none m end end' s f (a, b, c) = (s ∙ a, omega arith, omega arith)
SucceedsAs-to (some (ok x)) m end end' s f (a, b) = (s ∙ a, f ∙ b)
SucceedsAs-to (some (err e)) m end end' s f (a, b, c) = (s ∙ a, omega arith, omega arith)
