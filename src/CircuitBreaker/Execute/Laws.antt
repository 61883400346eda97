-- ===== src/CircuitBreaker/Execute/Laws.antt =====
-- What an execution through a circuit breaker answers, and what it counts.
use hotel_reviews_microservi.Base.{
  ℕ, zero, suc, ◌+◌, ◌≤◌, ◌<◌, ◌≡◌, ◌-◌, ◌*◌, ◌/◌, not, refl, ◌⊎◌, inl, inr, Bool, true, Option,
  none, some, List, [], arith, length, Time, Duration, u64, Option-cases,
}
use hotel_reviews_microservi.CircuitBreaker.Types.{Error, CircuitBreakerConfig}
use hotel_reviews_microservi.CircuitBreaker.Machine.{
  CircuitBreaker, can_execute, record_rejection, record_result, record_fallback, record_success,
  record_failure, update_metrics,
}
use hotel_reviews_microservi.CircuitBreaker.Calls.{Call, run}
use hotel_reviews_microservi.CircuitBreaker.Execute.{
  Outcome, ok, err, Environment, is_retryable_error, retry_loop, execute_with_retry, Fallback,
  or_fallback, Clock, finish, execute_with_fallback,
}

module _ {ℓ} {A : Type ℓ} where
  loop_bounded :
      (config : CircuitBreakerConfig) (env : Environment A) (more attempt : ℕ) (delay : Duration)
      → ((retry_loop config env more attempt delay).calls ≤ suc more)
        × (length (retry_loop config env more attempt delay).waits ≤ more)
  unfolding retry_loop
  loop_bounded config env zero attempt delay = ground arith
  loop_bounded config env (suc more) attempt delay =
      ground (
        arith,
        loop_bounded config env more (attempt + 1) (delay * config.retry_backoff_tenths / 10),
      )

  -- An execution calls the protected function at most once more often than there are retries, and
  -- waits at most once for each retry.
  pub execute_with_retry_bounded :
      (config : CircuitBreakerConfig) (env : Environment A)
      → ((execute_with_retry config env).calls ≤ config.max_retries + 1)
        × (length (execute_with_retry config env).waits ≤ config.max_retries)
  unfolding execute_with_retry
  execute_with_retry_bounded config env =
      omega (arith, loop_bounded config env config.max_retries 0 config.retry_delay)

  -- The attempt is made, fails with an error that is worth a retry, and the wait is not cut short.
  abbrev pub Passes : Environment A → ℕ → Type ℓ
  Passes env j =
      (e : Error) × (env.done_before j ≡ none)
      × (env.answer j ≡ err e)
      × (is_retryable_error e ≡ true)
      × (env.done_waiting j ≡ none)

  -- An answer that is not followed by a retry, whatever the number of retries left.
  abbrev pub is_final : Outcome A → Bool
  is_final (ok a) = true
  is_final (err e) = not (is_retryable_error e)

  loop_decided :
      (config : CircuitBreakerConfig) (env : Environment A) (more attempt k j : ℕ)
      (delay : Duration)
      → attempt + k ≡ j
      → k ≤ more
      → ((i : ℕ) → attempt ≤ i → i < j → Passes env i)
      → env.done_before j ≡ none
      → (k ≡ more) ⊎ (is_final (env.answer j) ≡ true)
      → ((retry_loop config env more attempt delay).outcome ≡ env.answer j)
        × ((retry_loop config env more attempt delay).calls ≡ k + 1)
  unfolding retry_loop
  loop_decided config env zero attempt zero j delay s h pass d f = ground arith
  loop_decided config env zero attempt (suc k) j delay s h pass d f = absurd (omega arith)
  loop_decided config env (suc more) attempt zero j delay s h pass d f = ground arith
  loop_decided config env (suc more) attempt (suc k) j delay s h pass d f = ground (
    arith,
    pass attempt (omega arith) (omega arith),
    loop_decided config env more (attempt + 1) k j (delay * config.retry_backoff_tenths / 10)
        (omega arith) (omega arith) (λ i l u. pass i (omega arith) u) d (ground arith),
  )

  -- Where the attempts before the `k`-th all fail with errors worth a retry, the context is not done,
  -- and the `k`-th is the last that is allowed, or succeeds, or fails with an error that is not
  -- retried, the execution ends with the answer of that attempt, after `k + 1` calls.
  pub execute_with_retry_decided :
      (config : CircuitBreakerConfig) (env : Environment A) (k : ℕ)
      → k ≤ config.max_retries
      → ((i : ℕ) → i < k → Passes env i)
      → env.done_before k ≡ none
      → (k ≡ config.max_retries) ⊎ (is_final (env.answer k) ≡ true)
      → ((execute_with_retry config env).outcome ≡ env.answer k)
        × ((execute_with_retry config env).calls ≡ k + 1)
  unfolding execute_with_retry
  execute_with_retry_decided config env k h pass d f =
      loop_decided config env config.max_retries 0 k k config.retry_delay (omega arith) h
        (λ i l u. pass i u) d f

-- The counts that an execution changes, added up two ways.
abbrev pub seen : CircuitBreaker → ℕ
seen cb = cb.metrics.total_requests + cb.metrics.total_rejections

abbrev pub settled : CircuitBreaker → ℕ
settled cb = cb.metrics.total_successes + cb.metrics.total_failures + cb.metrics.total_rejections

can_execute_counts :
    (now : Time) (cb : CircuitBreaker)
    → (seen (can_execute now cb).0 ≡ seen cb) × (settled (can_execute now cb).0 ≡ settled cb)
unfolding can_execute
can_execute_counts now cb = ground arith

record_rejection_counts :
    (cb : CircuitBreaker)
    → (u64 (seen (record_rejection cb)) ≡ u64 (seen cb + 1))
      × (u64 (settled (record_rejection cb)) ≡ u64 (settled cb + 1))
unfolding record_rejection
record_rejection_counts cb = omega arith

record_success_counts :
    (now : Time) (cb : CircuitBreaker)
    → (seen (record_success now cb) ≡ seen cb)
      × (u64 (settled (record_success now cb)) ≡ u64 (settled cb + 1))
unfolding record_success
record_success_counts now cb = ground arith

record_failure_counts :
    (now : Time) (cb : CircuitBreaker)
    → (seen (record_failure now cb) ≡ seen cb)
      × (u64 (settled (record_failure now cb)) ≡ u64 (settled cb + 1))
unfolding record_failure
record_failure_counts now cb = ground arith

update_metrics_counts :
    (t : Bool) (d : Duration) (cb : CircuitBreaker)
    → (u64 (seen (update_metrics t d cb)) ≡ u64 (seen cb + 1))
      × (settled (update_metrics t d cb) ≡ settled cb)
unfolding update_metrics
update_metrics_counts t d cb = ground arith

record_result_counts :
    (now : Time) (e : Option Error) (d : Duration) (cb : CircuitBreaker)
    → (u64 (seen (record_result now e d cb)) ≡ u64 (seen cb + 1))
      × (u64 (settled (record_result now e d cb)) ≡ u64 (settled cb + 1))
unfolding record_result
record_result_counts now none d cb = grind (arith, update_metrics_counts, record_success_counts)
record_result_counts now (some e) d cb = grind (arith, update_metrics_counts, record_failure_counts)

module _ {ℓ} {A : Type ℓ} where
  or_fallback_counts :
      (fallback : Fallback A) (e : Error) (cb : CircuitBreaker)
      → (seen (or_fallback fallback e cb).0 ≡ seen cb)
        × (settled (or_fallback fallback e cb).0 ≡ settled cb)
  unfolding or_fallback record_fallback
  or_fallback_counts none e cb = (refl, refl)
  or_fallback_counts (some f) e cb = ground arith

  finish_counts :
      (clock : Clock) (fallback : Fallback A) (o : Outcome A) (cb : CircuitBreaker)
      → (u64 (seen (finish clock fallback o cb).0) ≡ u64 (seen cb + 1))
        × (u64 (settled (finish clock fallback o cb).0) ≡ u64 (settled cb + 1))
  unfolding finish
  finish_counts clock fallback (ok a) cb =
      record_result_counts clock.finished none (clock.finished - clock.started) cb
  finish_counts clock fallback (err e) cb =
      let d = clock.finished - clock.started in
      let cb' = record_result clock.finished (some e) d cb in
      ground (
        arith,
        record_result_counts clock.finished (some e) d cb,
        or_fallback_counts fallback e cb',
      )

  -- An execution that no other call interrupts is counted once: as a request or as a rejection, and
  -- as a success, a failure or a rejection, up to the wrap-around of the counters.
  pub execute_with_fallback_counts :
      (clock : Clock) (env : Environment A) (fallback : Fallback A) (cb : CircuitBreaker)
      → let cb' = (execute_with_fallback clock env fallback [] cb).0 in
        (u64 (seen cb') ≡ u64 (seen cb + 1)) × (u64 (settled cb') ≡ u64 (settled cb + 1))
  unfolding execute_with_fallback run
  execute_with_fallback_counts clock env fallback cb =
      elim (Option-cases (can_execute clock.checked cb).1) [
        | inl e ↦ ground (
          arith,
          can_execute_counts clock.checked cb,
          finish_counts clock fallback (execute_with_retry cb.config env).outcome
              (can_execute clock.checked cb).0,
        )
        | inr (x, e) ↦ ground (
          arith,
          can_execute_counts clock.checked cb,
          record_rejection_counts (can_execute clock.checked cb).0,
          or_fallback_counts fallback x (record_rejection (can_execute clock.checked cb).0),
        )
      ]

  -- A request that the breaker refuses does not run the protected function: its answers, and what
  -- happens while it would run, make no difference.
  pub execute_with_fallback_refused :
      (clock : Clock) (env env' : Environment A) (fallback : Fallback A)
      (between between' : List (Time × Call)) (cb : CircuitBreaker) {e : Error}
      → (can_execute clock.checked cb).1 ≡ some e
      → execute_with_fallback clock env fallback between cb
        ≡ execute_with_fallback clock env' fallback between' cb
  unfolding execute_with_fallback
  execute_with_fallback_refused clock env env' fallback between between' cb h = ground arith
