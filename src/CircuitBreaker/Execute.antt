-- ===== src/CircuitBreaker/Execute.antt =====
-- `ExecuteWithFallback`, `executeWithRetry` and `executeFallback` of
-- internal/infrastructure/circuit_breaker.go. What the protected function answers at each attempt, and
-- what the context says, is given by the environment of the execution.
pub mod Laws
use hotel_reviews_microservi.Base.{
  ℕ, zero, suc, ◌+◌, ◌-◌, ◌*◌, ◌/◌, Bool, true, false, ◌||◌, not, Option, none, some, List, [], ◌∷◌,
  if◌then◌else◌, Time, Duration,
}
use hotel_reviews_microservi.CircuitBreaker.Types.{
  Error, canceled, deadline_exceeded, is_circuit_breaker_error, CircuitBreakerConfig,
}
use hotel_reviews_microservi.CircuitBreaker.Machine.{
  CircuitBreaker, can_execute, record_rejection, record_result, record_fallback,
}
use hotel_reviews_microservi.CircuitBreaker.Calls.{Call, run}

-- The pair of a result and an error, of which the protected functions give one.
pub data Outcome {ℓ} (A : Type ℓ) : Type ℓ where
  ok : A → Outcome A
  err : Error → Outcome A

abbrev pub error_of {ℓ} : {A : Type ℓ} → Outcome A → Option Error
error_of (ok a) = none
error_of (err e) = some e

abbrev pub has_failed {ℓ} : {A : Type ℓ} → Outcome A → Bool
has_failed (ok a) = false
has_failed (err e) = true

-- The context's error before an attempt and while waiting after it, if it is done by then, and the
-- answer of the protected function; the attempts are numbered from 0.
pub record Environment {ℓ} (A : Type ℓ) : Type ℓ where
  pub done_before : ℕ → Option Error
  pub answer : ℕ → Outcome A
  pub done_waiting : ℕ → Option Error

abbrev pub is_context_error : Error → Bool
is_context_error canceled = true
is_context_error deadline_exceeded = true
is_context_error _ = false

unfoldable pub is_retryable_error : Error → Bool
unfolding is_circuit_breaker_error
is_retryable_error e = not (is_circuit_breaker_error e || is_context_error e)

-- The outcome of the retry loop, with the number of calls of the protected function and the delays
-- that were waited for.
pub record Trial {ℓ} (A : Type ℓ) : Type ℓ where
  pub outcome : Outcome A
  pub calls : ℕ
  pub waits : List Duration

abbrev pub Fallback {ℓ} : Type ℓ → Type ℓ
Fallback A = Option (Error → Outcome A)

module _ {ℓ} {A : Type ℓ} where
  -- An answer, and a wait, in front of the rest of the loop.
  abbrev pub stop_at : Outcome A → ℕ → Trial A
  stop_at o n = record { outcome = o; calls = n; waits = [] }

  abbrev pub after_wait : Duration → Trial A → Trial A
  after_wait delay t = record { outcome = t.outcome; calls = suc t.calls; waits = delay ∷ t.waits }

  -- One attempt is made of `more + 1`; `rest` is the loop from the next attempt on.
  abbrev pub after_failure : Error → Option Error → Duration → Trial A → Trial A
  after_failure e (some done) delay rest = stop_at (err done) 1
  after_failure e none delay rest = after_wait delay rest

  unfoldable pub retry_loop : CircuitBreakerConfig → Environment A → ℕ → ℕ → Duration → Trial A
  retry_loop config env zero attempt delay = elim (env.done_before attempt) [
    | some done ↦ stop_at (err done) 0
    | none ↦ stop_at (env.answer attempt) 1
  ]
  retry_loop config env (suc more) attempt delay =
      let rest =
        retry_loop config env more (attempt + 1) (delay * config.retry_backoff_tenths / 10) in
      elim (env.done_before attempt) [
        | some done ↦ stop_at (err done) 0
        | none ↦ elim (env.answer attempt) [
          | ok a ↦ stop_at (ok a) 1
          | err e ↦
              if is_retryable_error e
              then after_failure e (env.done_waiting attempt) delay rest
              else stop_at (err e) 1
        ]
      ]

  unfoldable pub execute_with_retry : CircuitBreakerConfig → Environment A → Trial A
  execute_with_retry config env = retry_loop config env config.max_retries 0 config.retry_delay

  -- `executeFallback`, if there is a fallback and fallbacks are enabled.
  unfoldable pub or_fallback : Fallback A → Error → CircuitBreaker → CircuitBreaker × Outcome A
  or_fallback none e cb = (cb, err e)
  or_fallback (some f) e cb =
      if cb.config.enable_fallback
      then (record_fallback (has_failed (f e)) cb, f e)
      else (cb, err e)

-- When the execution starts, checks the breaker, and has its result.
pub record Clock : Type 0 where
  pub started : Time
  pub checked : Time
  pub finished : Time

module _ {ℓ} {A : Type ℓ} where
  finish : Clock → Fallback A → Outcome A → CircuitBreaker → CircuitBreaker × Outcome A
  finish clock fallback o cb =
      let cb' = record_result clock.finished (error_of o) (clock.finished - clock.started) cb in
      elim o [ ok a ↦ (cb', ok a) | err e ↦ or_fallback fallback e cb' ]

  -- `between` are the calls that other requests make while this one runs.
  unfoldable pub execute_with_fallback :
      Clock
      → Environment A
      → Fallback A
      → List (Time × Call)
      → CircuitBreaker
      → CircuitBreaker × Outcome A
  unfolding finish
  execute_with_fallback clock env fallback between cb =
      let (cb', refused) = can_execute clock.checked cb in
      elim refused [
        | some e ↦ or_fallback fallback e (record_rejection cb')
        | none ↦ finish clock fallback (execute_with_retry cb.config env).outcome (run between cb')
      ]
