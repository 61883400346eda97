-- ===== src/CircuitBreaker/Examples.antt =====
-- The theorems on the circuit breaker at concrete inputs, and runs of it.
use hotel_reviews_microservi.Base.{
  ℕ, ◌+◌, ◌*◌, ◌<◌, ◌≡◌, refl, inr, none, some, List, [], ◌∷◌, arith, Time, second, u64,
}
use hotel_reviews_microservi.CircuitBreaker.Types.{
  state_closed, state_open, state_half_open, other, circuit_breaker, CircuitBreakerConfig,
  default_config, new_metrics,
}
use hotel_reviews_microservi.CircuitBreaker.Window.{
  SlidingWindow, empty_bucket, new_sliding_window, get_stats,
}
use hotel_reviews_microservi.CircuitBreaker.Machine.{
  CircuitBreaker, new_circuit_breaker, can_execute, record_failure, record_success, should_open,
}
use hotel_reviews_microservi.CircuitBreaker.Calls.{
  Call, admission, success, failure, health_check, step, run,
}
use hotel_reviews_microservi.CircuitBreaker.Invariant.{Inv, run-new-Inv}
use hotel_reviews_microservi.CircuitBreaker.Transitions.{Transition, step-Transition}
use hotel_reviews_microservi.CircuitBreaker.Periods.{IsExhausted, can_execute-exhausted_period}
use hotel_reviews_microservi.CircuitBreaker.Execute.{
  Outcome, ok, err, Environment, is_retryable_error, execute_with_retry, execute_with_fallback,
  Clock,
}
use hotel_reviews_microservi.CircuitBreaker.Execute.Laws.{
  execute_with_retry_decided, Passes, seen, settled, execute_with_fallback_counts,
}

abbrev start : Time
start = 1000 * second

abbrev small_config : CircuitBreakerConfig
small_config = record default_config { window_buckets = 2 }

abbrev small_window : SlidingWindow
small_window = record {
  buckets = empty_bucket (940 * second) ∷ empty_bucket (970 * second) ∷ [];
  size = 60 * second;
  bucket_size = 30 * second;
  current_idx = 0;
}

abbrev fresh : CircuitBreaker
fresh = record {
  config = small_config;
  state = state_closed;
  window = small_window;
  metrics = new_metrics start;
  last_state_change = start;
  consecutive_failures = 0;
  consecutive_successes = 0;
  half_open_requests = 0;
}

fresh_is_new : new_circuit_breaker start small_config ≡ some fresh
unfolding new_circuit_breaker new_sliding_window
fresh_is_new = refl

run-new-Inv_example :
    Inv (run ((start, failure) ∷ (start + 1, admission) ∷ (start + 2, success) ∷ []) fresh)
run-new-Inv_example =
    run-new-Inv start small_config
      ((start, failure) ∷ (start + 1, admission) ∷ (start + 2, success) ∷ []) (omega arith)
      fresh_is_new

step-Transition_example : Transition start failure fresh (step start failure fresh)
step-Transition_example = step-Transition start failure fresh

abbrev probing : CircuitBreaker
probing = record fresh { state = state_half_open; half_open_requests = 3 }

abbrev opened : CircuitBreaker
opened = record fresh { state = state_open }

can_execute-exhausted_period_example :
    can_execute (9000 * second) (run ((8000 * second, health_check none) ∷ []) probing) ≡ (
      run ((8000 * second, health_check none) ∷ []) probing,
      some (circuit_breaker state_half_open "circuit breaker is half-open and at capacity"),
    )
can_execute-exhausted_period_example =
    can_execute-exhausted_period probing ((8000 * second, health_check none) ∷ []) (9000 * second)
      (record { half_open = refl; spent = omega arith }) (refl, tt)

-- Four probes, of which the third fails, leave the breaker half-open with no probe left.
abbrev probes : List (Time × Call)
probes =
    (1060 * second, admission)
    ∷ (1061 * second, admission)
    ∷ (1062 * second, admission)
    ∷ (1063 * second, admission)
    ∷ (1064 * second, success)
    ∷ (1065 * second, success)
    ∷ (1066 * second, failure)
    ∷ (1067 * second, success)
    ∷ []

probes_exhaust : IsExhausted (run probes opened)
unfolding run step can_execute record_success record_failure should_open get_stats
probes_exhaust = record { half_open = refl; spent = omega arith }

-- The protected function fails once and then answers.
abbrev answer_at : ℕ → Outcome ℕ
answer_at ℕ.zero = err (other 7)
answer_at (ℕ.suc n) = ok 42

abbrev flaky : Environment ℕ
flaky = record { done_before = λ n. none; answer = answer_at; done_waiting = λ n. none }

first-Passes : (i : ℕ) → i < 1 → Passes flaky i
unfolding is_retryable_error
first-Passes ℕ.zero h = (other 7, refl, refl, refl, refl)
first-Passes (ℕ.suc i) h = absurd (omega arith)

execute_with_retry_decided_example :
    ((execute_with_retry small_config flaky).outcome ≡ ok 42)
    × ((execute_with_retry small_config flaky).calls ≡ 2)
execute_with_retry_decided_example =
    execute_with_retry_decided small_config flaky 1 (omega arith) first-Passes refl (inr refl)

abbrev clock : Clock
clock = record { started = start; checked = start; finished = 1001 * second }

abbrev dead : Environment ℕ
dead = record flaky { answer = λ n. err (other 1) }

execute_with_fallback_counts_example :
    let cb' = (execute_with_fallback clock dead none [] fresh).0 in
    (u64 (seen cb') ≡ u64 (seen fresh + 1)) × (u64 (settled cb') ≡ u64 (settled fresh + 1))
execute_with_fallback_counts_example = execute_with_fallback_counts clock dead none fresh
