-- ===== src/Retry/Loop/Counts.antt =====
-- What the retry manager of internal/infrastructure/retry.go counts.
use hotel_reviews_microservi.Base.{
  ℕ, zero, suc, ◌+◌, ◌≡◌, ◌≢◌, refl, inl, inr, Bool, ◌||◌, not, ◌==◌, true, false, Bool-cases,
  Option-cases, some, arith,
}
use hotel_reviews_microservi.CircuitBreaker.Types.{Error}
use hotel_reviews_microservi.CircuitBreaker.Execute.{ok, err}
use hotel_reviews_microservi.Retry.Types.{RetryConfig, ErrorReader, is_retryable}
use hotel_reviews_microservi.Retry.Backoff.{Arithmetic}
use hotel_reviews_microservi.Retry.Metrics.{
  RetryMetrics, record_circuit_breaker_reject, update_retry_metrics,
}
use hotel_reviews_microservi.Retry.Loop.{
  RetryManager, Environment, Operation, used_breaker, succeed, fail, prepare_retry, reject,
  check_circuit_breaker, retry_loop, execute_with_config, count_dead_letter, after_error,
  interrupted,
}
use hotel_reviews_microservi.Retry.Loop.Tally.{
  HasRoom, IsCounted, Outcome-cases, on_breaker-metrics, succeed-counts, fail-counts, retry-counts,
  Continues, SucceedsAs-from, SucceedsAs-to,
}

module _ (reader : ErrorReader) (calc : Arithmetic) (config : RetryConfig) {A : Type 0}
    (env : Environment A) where
  -- An operation that ends without a call keeps the counters.
  ended-IsCounted :
      (n : ℕ) (m : RetryMetrics) (rm : RetryManager) (e : Error) (backoff : ℕ)
      → Continues 0 0 m rm.metrics
      → let o : Operation A = record {
        manager = rm;
        outcome = some (err e);
        backoff = backoff;
        calls = 0;
      } in
        IsCounted n m o
  ended-IsCounted n m rm e backoff (a, r, s, f) = record {
    few = omega arith;
    attempts = a;
    retries_least = omega arith;
    retries_most = omega arith;
    accounted = omega arith;
    settled = (s, omega arith, omega arith);
  }

  -- What an attempt's failure leaves, where the loop ends with it.
  stopped-IsCounted :
      (n attempt : ℕ) (e : Error) (backoff : ℕ) (rm : RetryManager)
      → HasRoom (suc n) rm.metrics
      → attempt == config.max_attempts || not (is_retryable reader e attempt config) ≡ true
      → let o : Operation A = record {
        manager = fail reader calc config env attempt e rm;
        outcome = some (err e);
        backoff = backoff;
        calls = 1;
      } in
        IsCounted (suc n) rm.metrics o
  stopped-IsCounted n attempt e backoff rm (p, q, s, t) over =
      let (a, r, s', f) = fail-counts reader calc config env attempt e rm in
      record {
        few = omega arith;
        attempts = ground arith;
        retries_least = omega arith;
        retries_most = omega arith;
        accounted = ground (arith, over);
        settled = (s', ground arith, ground arith);
      }

  retried-Continues :
      (attempt : ℕ) (e : Error) (rm : RetryManager) (n : ℕ)
      → HasRoom (suc n) rm.metrics
      → is_retryable reader e attempt config ≡ true
      → attempt ≢ config.max_attempts
      → Continues 1 1 rm.metrics
          (prepare_retry reader calc config env attempt e
            (fail reader calc config env attempt e rm)).0.metrics
  retried-Continues attempt e rm n (p, q, s, t) h different =
      let failed = fail reader calc config env attempt e rm in
      ground (
        arith,
        fail-counts reader calc config env attempt e rm,
        retry-counts reader calc config env attempt e failed,
      )

  -- Calls and retries in front of the rest of the operation.
  continued-IsCounted :
      (n : ℕ) (m : RetryMetrics) (rm : RetryManager) (o : Operation A)
      → Continues 1 1 m rm.metrics
      → IsCounted n rm.metrics o
      → let o' : Operation A = record o { calls = suc o.calls } in IsCounted (suc n) m o'
  continued-IsCounted n m rm o (a, r, s, f) c =
      let few = c.few in
      let attempts = c.attempts in
      let least = c.retries_least in
      let most = c.retries_most in
      record {
        few = omega arith;
        attempts = omega arith;
        retries_least = omega arith;
        retries_most = omega arith;
        accounted = omega arith;
        settled = SucceedsAs-from o.outcome m rm.metrics o.manager.metrics s f c.settled;
      }

  after_error-IsCounted :
      (more attempt backoff : ℕ) (e : Error) (rm : RetryManager) (rest : Operation A)
      → HasRoom (suc more) rm.metrics
      → attempt + more ≡ config.max_attempts
      → let failed = fail reader calc config env attempt e rm in
        let (retried, delay) = prepare_retry reader calc config env attempt e failed in
        (Continues 1 1 rm.metrics retried.metrics → IsCounted more retried.metrics rest)
        → IsCounted
            (suc more)
            rm.metrics
            (after_error reader calc config env more attempt e backoff failed retried delay rest)
  after_error-IsCounted zero attempt backoff e rm rest h k c =
      stopped-IsCounted 0 attempt e backoff rm h (ground (arith, k))
  after_error-IsCounted (suc more) attempt backoff e rm rest h k c =
      let failed = fail reader calc config env attempt e rm in
      let retried = (prepare_retry reader calc config env attempt e failed).0 in
      let delay = (prepare_retry reader calc config env attempt e failed).1 in
      elim (Bool-cases (is_retryable reader e attempt config)) [
        | inr over ↦
            rw over (stopped-IsCounted (suc more) attempt e backoff rm h (ground (arith, over)))
        | inl again ↦
            let on = retried-Continues attempt e rm (suc more) h again (omega arith) in
            rw again (elim (Option-cases (interrupted delay (env.done_waiting attempt))) [
              | inl i ↦ rw i (continued-IsCounted (suc more) rm.metrics retried rest on (c on))
              | inr (done, i) ↦ rw i (
                  continued-IsCounted (suc more) rm.metrics retried _ on (
                    ended-IsCounted (suc more) retried.metrics retried done delay
                      (omega arith, omega arith, refl, refl)))
            ])
      ]

  reject-Continues : (rm : RetryManager) → Continues 0 0 rm.metrics (reject config rm).metrics
  unfolding reject record_circuit_breaker_reject
  reject-Continues rm = rw (on_breaker-metrics _ config _) (omega arith, omega arith, refl, refl)

  succeeded-IsCounted :
      (n attempt : ℕ) (a : A) (backoff : ℕ) (rm : RetryManager)
      → HasRoom (suc n) rm.metrics
      → let o : Operation A = record {
        manager = succeed reader calc config env attempt rm;
        outcome = some (ok a);
        backoff = backoff;
        calls = 1;
      } in
        IsCounted (suc n) rm.metrics o
  succeeded-IsCounted n attempt a backoff rm (p, q, s, t) =
      let (c, r, s', f) = succeed-counts reader calc config env attempt rm in
      record {
        few = omega arith;
        attempts = ground arith;
        retries_least = omega arith;
        retries_most = omega arith;
        accounted = omega arith;
        settled = (ground arith, f);
      }

  retried-HasRoom :
      (n : ℕ) (m m' : RetryMetrics) → Continues 1 1 m m' → HasRoom (suc n) m → HasRoom n m'
  retried-HasRoom n m m' (a, r, s, f) (p, q, x, y) =
      (omega arith, omega arith, omega arith, omega arith)

  retry_loop-IsCounted :
      (more attempt backoff : ℕ) (rm : RetryManager)
      → HasRoom more rm.metrics
      → attempt + more ≡ config.max_attempts + 1
      → IsCounted more rm.metrics (retry_loop reader calc config env more attempt backoff rm)
  unfolding retry_loop
  retry_loop-IsCounted zero attempt backoff rm h k = record {
    few = omega arith;
    attempts = omega arith;
    retries_least = omega arith;
    retries_most = omega arith;
    accounted = omega arith;
    settled = (refl, omega arith, omega arith);
  }
  retry_loop-IsCounted (suc more) attempt backoff rm h k =
      elim (Option-cases (env.done_before attempt)) [
        | inr (e, d) ↦
            simp (retry_loop, d)
              (ended-IsCounted (suc more) rm.metrics rm e backoff
                (omega arith, omega arith, refl, refl))
        | inl d ↦ elim (Option-cases (check_circuit_breaker (used_breaker config rm))) [
          | inr (e, c) ↦
              simp (retry_loop, d, c)
                (ended-IsCounted (suc more) rm.metrics (reject config rm) e backoff
                  (reject-Continues rm))
          | inl c ↦ elim (Outcome-cases (env.answer attempt)) [
            | inl (a, x) ↦
                simp (retry_loop, d, c, x) (succeeded-IsCounted more attempt a backoff rm h)
            | inr (e, x) ↦
                let failed = fail reader calc config env attempt e rm in
                let (retried, delay) = prepare_retry reader calc config env attempt e failed in
                simp (retry_loop, d, c, x)
                  (after_error-IsCounted more attempt backoff e rm _ h (omega arith) (λ on.
                    retry_loop-IsCounted more (attempt + 1) delay retried
                      (retried-HasRoom more rm.metrics retried.metrics on h) (omega arith)))
          ]
        ]
      ]

count_dead_letter-Continues :
    (dead : Bool) (m : RetryMetrics) → Continues 0 0 m (count_dead_letter dead m)
count_dead_letter-Continues true m = (omega arith, omega arith, refl, refl)
count_dead_letter-Continues false m = (omega arith, omega arith, refl, refl)

kept-IsCounted :
    {A : Type 0} (n : ℕ) (m : RetryMetrics) (o : Operation A) (rm : RetryManager)
    → Continues 0 0 o.manager.metrics rm.metrics
    → IsCounted n m o
    → let o' : Operation A = record o { manager = rm } in IsCounted n m o'
kept-IsCounted n m o rm (a, r, s, f) c =
    let attempts = c.attempts in
    let least = c.retries_least in
    let most = c.retries_most in
    record {
      few = c.few;
      attempts = omega arith;
      retries_least = omega arith;
      retries_most = omega arith;
      accounted = let each = c.accounted in omega arith;
      settled = SucceedsAs-to o.outcome m o.manager.metrics rm.metrics s f c.settled;
    }

-- Where no counter wraps, an operation calls the function at most as often as attempts are allowed, counts
-- each call as an attempt and as exactly one of a success, a final failure and a retry, counts itself as
-- successful exactly where it ends with a result, and otherwise as failed at most once.
pub execute_with_config-IsCounted :
    (reader : ErrorReader) (calc : Arithmetic) (config : RetryConfig) {A : Type 0}
    (env : Environment A) (rm : RetryManager)
    → HasRoom config.max_attempts rm.metrics
    → IsCounted config.max_attempts rm.metrics (execute_with_config reader calc config env rm)
unfolding execute_with_config update_retry_metrics
execute_with_config-IsCounted reader calc config env rm h =
    let o = retry_loop reader calc config env config.max_attempts 1 0 rm in
    let c =
      retry_loop-IsCounted reader calc config env config.max_attempts 1 0 rm h (omega arith) in
    let m = update_retry_metrics o.backoff o.manager.metrics in
    kept-IsCounted config.max_attempts rm.metrics o _ (count_dead_letter-Continues _ m) c
